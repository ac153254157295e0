-- ===== src/Query/Builder/Write/Numbered.antt =====
-- The statements that write: how many placeholders they have and what they are numbered.
use mathlib.Core.List.{append-nil}
use rest_trans.Prelude.{
  ℕ, zero, suc, ◌+◌, ◌*◌, List, [], ◌∷◌, ◌++◌, ◌≡◌, refl, ap, ◌∙◌, subst, arith, Text, length, ok,
  ok-injective, >>=-eq-ok,
}
use rest_trans.Sql.{Sql, placeholders, count_from}
use rest_trans.Sql.Numbering.{
  placeholders-append, all_placeholders, placeholders-join_sql, count_from-append,
}
use rest_trans.Query.Builder.Where.{
  Builder, table_of, value_placeholders, build_where, qualified_table,
}
use rest_trans.Query.Builder.Where.Numbered.{build_where-IsNumbered}
use rest_trans.Query.Builder.Select.{Statement}
use rest_trans.Query.Builder.Select.Numbered.{placeholders-where_clause, where_args_eq}
use rest_trans.Query.Builder.Write.{
  names, column_list, row_placeholders, rows_from, insert_sql, build_insert, excluded_clauses,
  conflict_action, on_conflict, build_upsert, set_clauses, update_sql, build_update, build_delete,
}

names-placeholders : (cs : List Text) → all_placeholders (names cs) ≡ []
names-placeholders [] = refl
names-placeholders (c ∷ cs) = names-placeholders cs

column_list-placeholders : (cs : List Text) → placeholders (column_list cs) ≡ []
column_list-placeholders cs = simp (placeholders-join_sql, names-placeholders)

value_placeholders-count_from :
    (idx : ℕ) (cs : List Text)
    → all_placeholders (value_placeholders idx cs) ≡ count_from idx (length cs)
unfolding value_placeholders
value_placeholders-count_from idx [] = refl
value_placeholders-count_from idx (c ∷ cs) =
    ap (◌∷◌ idx) (value_placeholders-count_from (idx + 1) cs)

row_placeholders-count_from :
    (idx : ℕ) (cs : List Text) → placeholders (row_placeholders idx cs) ≡ count_from idx (length cs)
unfolding row_placeholders
row_placeholders-count_from idx cs =
    simp (placeholders-append, placeholders-join_sql, append-nil)
      (value_placeholders-count_from idx cs)

rows_from-count_from :
    (idx : ℕ) (cs : List Text) (rows : ℕ)
    → all_placeholders (rows_from idx cs rows) ≡ count_from idx (rows * length cs)
unfolding rows_from
rows_from-count_from idx cs zero = let e : 0 * length cs ≡ 0 = omega arith in rw e
rows_from-count_from idx cs (suc rows) =
    let e : suc rows * length cs ≡ length cs + rows * length cs = omega arith in
    rw (e, row_placeholders-count_from, rows_from-count_from (idx + length cs) cs rows)
      (count_from-append idx (length cs) (rows * length cs))

pub insert_sql-count_from :
    (table : Text) (cs : List Text) (rows : ℕ)
    → placeholders (insert_sql table cs rows) ≡ count_from 1 (rows * length cs)
insert_sql-count_from table cs rows =
    simp (placeholders-append, column_list-placeholders, placeholders-join_sql)
      (rows_from-count_from 1 cs rows)

-- An INSERT that is built for `rows` rows has one placeholder for each column of each row, and
-- they are numbered from 1 in the order of the text.
build_insert-count_from :
    (b : Builder) (cols : List Text) (rows : ℕ) {s : Sql}
    → build_insert b cols rows ≡ ok s
    → placeholders s ≡ count_from 1 (rows * length cols)
unfolding build_insert
build_insert-count_from b [] rows h = cc
build_insert-count_from b (c ∷ cs) zero h = cc
build_insert-count_from b (c ∷ cs) (suc rows) h =
    let (t, _, e) = >>=-eq-ok (table_of b.table) _ h in
    subst (λ r. placeholders r ≡ count_from 1 (suc rows * length (c ∷ cs))) (ok-injective e)
      (insert_sql-count_from (qualified_table b t) (c ∷ cs) (suc rows))

pub excluded-placeholders :
    (conflict cols : List Text) → all_placeholders (excluded_clauses conflict cols) ≡ []
unfolding excluded_clauses
excluded-placeholders conflict [] = refl
excluded-placeholders conflict (c ∷ cs) = ground (arith, excluded-placeholders conflict cs)

conflict_action-placeholders :
    (ss : List Sql) → all_placeholders ss ≡ [] → placeholders (conflict_action ss) ≡ []
conflict_action-placeholders [] h = refl
conflict_action-placeholders (s ∷ ss) h = rw placeholders-join_sql h

pub on_conflict-placeholders :
    (conflict cols : List Text) → placeholders (on_conflict conflict cols) ≡ []
unfolding on_conflict
on_conflict-placeholders conflict cols =
    simp (placeholders-append, column_list-placeholders)
      (conflict_action-placeholders (excluded_clauses conflict cols)
        (excluded-placeholders conflict cols))

upsert_sql-count_from :
    (table : Text) (cs conflict : List Text) (rows : ℕ)
    → placeholders (insert_sql table cs rows ++ on_conflict conflict cs)
      ≡ count_from 1 (rows * length cs)
upsert_sql-count_from table cs conflict rows =
    placeholders-append (insert_sql table cs rows) (on_conflict conflict cs)
    ∙ ap (λ ns. placeholders (insert_sql table cs rows) ++ ns)
        (on_conflict-placeholders conflict cs)
    ∙ append-nil (placeholders (insert_sql table cs rows))
    ∙ insert_sql-count_from table cs rows

-- An upsert numbers its placeholders as the INSERT does: the ON CONFLICT clause adds none.
build_upsert-count_from :
    (b : Builder) (cols conflict : List Text) (rows : ℕ) {s : Sql}
    → build_upsert b cols conflict rows ≡ ok s
    → placeholders s ≡ count_from 1 (rows * length cols)
unfolding build_upsert
build_upsert-count_from b [] conflict rows h = cc
build_upsert-count_from b (c ∷ cs) conflict zero h = cc
build_upsert-count_from b (c ∷ cs) [] (suc rows) h = cc
build_upsert-count_from b (c ∷ cs) (k ∷ ks) (suc rows) h =
    let (t, _, e) = >>=-eq-ok (table_of b.table) _ h in
    subst (λ r. placeholders r ≡ count_from 1 (suc rows * length (c ∷ cs))) (ok-injective e)
      (upsert_sql-count_from (qualified_table b t) (c ∷ cs) (k ∷ ks) (suc rows))

set_clauses-count_from :
    (idx : ℕ) (cs : List Text) → all_placeholders (set_clauses idx cs) ≡ count_from idx (length cs)
unfolding set_clauses
set_clauses-count_from idx [] = refl
set_clauses-count_from idx (c ∷ cs) = ap (◌∷◌ idx) (set_clauses-count_from (idx + 1) cs)

pub update_sql-placeholders :
    (table : Text) (cs : List Text) (cond : Sql)
    → placeholders (update_sql table cs cond) ≡ count_from 1 (length cs) ++ placeholders cond
update_sql-placeholders table cs cond =
    simp (
      placeholders-append, placeholders-join_sql, placeholders-where_clause, set_clauses-count_from,
    )

-- An UPDATE that is built has first one placeholder for each column that is set, and then one for
-- each argument that is returned, numbered from 1 with no gap.
build_update-count_from :
    (b : Builder) (cols : List Text) {s : Statement}
    → build_update b cols ≡ ok s
    → placeholders s.sql ≡ count_from 1 (length cols + length s.args)
unfolding build_update
build_update-count_from b [] h = cc
build_update-count_from b (c ∷ cs) {s} h =
    let (t, _, h') = >>=-eq-ok (table_of b.table) _ h in
    let (cond, w, e) = >>=-eq-ok (build_where b (1 + length (c ∷ cs))) _ h' in
    let numbered = build_where-IsNumbered b (1 + length (c ∷ cs)) w in
    subst (λ (r : Statement). placeholders r.sql ≡ count_from 1 (length (c ∷ cs) + length r.args))
      (ok-injective e)
      (rw (update_sql-placeholders, where_args_eq cond numbered, numbered.numbers_eq)
        (count_from-append 1 (length (c ∷ cs)) (length cond.args)))

-- A DELETE that is built has one placeholder for each of its arguments, numbered from 1.
pub build_delete-count_from :
    (b : Builder) {s : Statement}
    → build_delete b ≡ ok s
    → placeholders s.sql ≡ count_from 1 (length s.args)
unfolding build_delete
build_delete-count_from b h =
    let (t, _, h') = >>=-eq-ok (table_of b.table) _ h in
    let (cond, w, e) = >>=-eq-ok (build_where b 1) _ h' in
    let numbered = build_where-IsNumbered b 1 w in
    subst (λ (r : Statement). placeholders r.sql ≡ count_from 1 (length r.args)) (ok-injective e)
      (rw placeholders-where_clause numbered.numbers_eq)
