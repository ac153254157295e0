-- ===== src/Query/Builder/Select/Numbered.antt =====
-- The placeholders of `BuildSelect` and `BuildCount`.
use mathlib.Core.List.{append-nil, append_assoc, reverse, reverse-cons}
use rest_trans.Prelude.{
  ℕ, ◌+◌, List, [], ◌∷◌, ◌++◌, ◌≡◌, refl, sym, ap, ◌∙◌, arith, Text, length, ok, ok-injective,
  subst, All, All-append, map, text_eq, codes, ◌<◌, >>=-eq-ok, Bool-cases, inl, inr,
}
use rest_trans.Sql.{Sql, is_blank, lit, placeholder, placeholders, count_from}
use rest_trans.Sql.Numbering.{
  IsNumbered, placeholders-append, all_placeholders, placeholders-join_sql, placeholders_blank,
  args_blank,
}
use rest_trans.Query.Builder.Where.{Builder, Cond, table_of, build_where}
use rest_trans.Query.Builder.Where.Numbered.{build_where-IsNumbered}
use rest_trans.Schema.{Table}
use rest_trans.Query.Params.{OrderItem, FtsFilter, Params}
use rest_trans.Query.Builder.Select.{
  where_clause, where_args, Statement, select_list, rank, Ranked, add_ranks, build_embed_joins,
  order_column, nulls_sql, order_parts, build_order_by, order_clause, select_sql, build_select,
  build_count,
}
use rest_trans.Query.Builder.Select.Parts.{
  Plain, clause-Plain, select_list-Plain, build_embed_joins-Plain, limit-Plain, offset-Plain,
}

-- The clause has the placeholders of its condition, and there is an argument for each.
pub placeholders-where_clause : (s : Sql) → placeholders (where_clause s) ≡ placeholders s
placeholders-where_clause s = elim (Bool-cases (is_blank s)) [
  | inl e ↦ rw e (sym (placeholders_blank s e))
  | inr e ↦ rw e
]

pub where_args_eq :
    {idx : ℕ} (c : Cond) → IsNumbered idx (placeholders c.sql) c.args c.next → where_args c ≡ c.args
where_args_eq c h = elim (Bool-cases (is_blank c.sql)) [
  | inl e ↦ rw e (sym (args_blank c.sql h e))
  | inr e ↦ rw e
]

-- The numbers in ORDER BY: only the rank of a search is one, and it is the first.
abbrev pub IsFirst : List FtsFilter → List ℕ → Type 0
IsFirst fts = All (λ n. (n ≡ 1) × (0 < length fts))

nulls-Plain : (nulls : Text) → Plain (nulls_sql nulls)
nulls-Plain [] = refl
nulls-Plain (c ∷ cs) = refl

order_column-IsFirst :
    (t : Table) (fts : List FtsFilter) (col : Text)
    → IsFirst fts (placeholders (order_column t fts col))
order_column-IsFirst t [] col = tt
order_column-IsFirst t (f ∷ fs) col = elim (Bool-cases (text_eq col (codes "_rank"))) [
  | inl e ↦ rw e ((refl, omega arith), tt)
  | inr e ↦ rw e tt
]

order_parts-IsFirst :
    (t : Table) (fts : List FtsFilter) (items : List OrderItem)
    → IsFirst fts (all_placeholders (order_parts t fts items))
unfolding order_parts
order_parts-IsFirst t fts [] = tt
order_parts-IsFirst t fts (i ∷ items) =
    All-append _ _ _
      (simp (placeholders-append, nulls-Plain, append-nil) (order_column-IsFirst t fts i.column))
      (order_parts-IsFirst t fts items)

order_clause-IsFirst :
    (p : Params) (t : Table) (items : List OrderItem)
    → IsFirst p.fts_filters (placeholders (order_clause p t items))
unfolding build_order_by
order_clause-IsFirst p t [] = tt
order_clause-IsFirst p t (i ∷ items) =
    rw placeholders-join_sql (order_parts-IsFirst t p.fts_filters p.order)

-- The ranks stand in front of the list, the last search first.
record RanksNumbered (r : Ranked) (fts : List FtsFilter) (s : Ranked) : Type 0 where
  numbers : placeholders s.list ≡ reverse (count_from r.next (length fts)) ++ placeholders r.list
  args : s.args ≡ r.args ++ map (λ f. f.search_term) fts
  next : s.next ≡ r.next + length fts

add_ranks-Numbered :
    (t : Table) (fts : List FtsFilter) (r : Ranked) → RanksNumbered r fts (add_ranks t fts r)
unfolding add_ranks
add_ranks-Numbered t [] r = record {
  numbers = refl;
  args = sym (append-nil r.args);
  next = omega arith;
}
add_ranks-Numbered t (f ∷ fs) r =
    let rest = count_from (r.next + 1) (length fs) in
    let ih = add_ranks-Numbered t fs (record {
      list = rank f.column t (placeholder r.next) ++ (lit " AS _rank" ++ (lit ", " ++ r.list));
      args = r.args ++ f.search_term ∷ [];
      next = r.next + 1;
    }) in
    record {
      numbers =
          ih.numbers
          ∙ sym (
              ap (λ ns. ns ++ placeholders r.list) (reverse-cons r.next rest)
              ∙ append_assoc (reverse rest) (r.next ∷ []) (placeholders r.list));
      args = ih.args ∙ append_assoc r.args (f.search_term ∷ []) (map (λ g. g.search_term) fs);
      next = omega (arith, ih.next);
    }

-- How the builder numbers the placeholders of a SELECT: the ranks of the searches first, in reverse
-- order of the text; then those of `cond`, the WHERE clause that is built from the next number on,
-- in the order of the text; then ORDER BY, where each is the first.
pub record IsSelectNumbered (b : Builder) (s : Statement) : Type 0 where
  pub cond : Cond
  pub cond_eq : build_where b (1 + length b.params.fts_filters) ≡ ok cond
  pub order_numbers : List ℕ
  pub args_eq : s.args ≡ map (λ f. f.search_term) b.params.fts_filters ++ cond.args
  pub numbers_eq :
      placeholders s.sql
      ≡ reverse (count_from 1 (length b.params.fts_filters))
        ++ (count_from (1 + length b.params.fts_filters) (length cond.args) ++ order_numbers)
  pub order_first : IsFirst b.params.fts_filters order_numbers

select_sql-placeholders :
    (b : Builder) (t : Table) (list cond : Sql)
    → placeholders (select_sql b t list cond)
      ≡ placeholders list
        ++ (placeholders cond ++ placeholders (order_clause b.params t b.params.order))
select_sql-placeholders b t list cond =
    let joined =
      clause-Plain (lit " ") (build_embed_joins b t) refl (build_embed_joins-Plain b t) in
    simp (
      placeholders-append, joined, placeholders-where_clause, limit-Plain, offset-Plain, append-nil,
    )

module _ (b : Builder) (t : Table) (list : Sql) (plain : Plain list) where
  ranked : Ranked
  ranked = add_ranks t b.params.fts_filters (record { list = list; args = []; next = 1 })

  ranked-Numbered :
      RanksNumbered (record { list = list; args = []; next = 1 }) b.params.fts_filters ranked
  unfolding ranked
  ranked-Numbered = add_ranks-Numbered t b.params.fts_filters _

  select-IsSelectNumbered :
      (cond : Cond)
      → build_where b ranked.next ≡ ok cond
      → IsSelectNumbered b (record {
        sql = select_sql b t ranked.list cond.sql;
        args = ranked.args ++ where_args cond;
      })
  select-IsSelectNumbered cond w =
      let h = build_where-IsNumbered b ranked.next w in
      record {
        cond = cond;
        cond_eq = rw (sym ranked-Numbered.next) w;
        order_numbers = placeholders (order_clause b.params t b.params.order);
        args_eq = rw (ranked-Numbered.args, where_args_eq cond h);
        numbers_eq =
            select_sql-placeholders b t ranked.list cond.sql
            ∙ cc (
              ranked-Numbered.numbers,
              ranked-Numbered.next,
              h.numbers_eq,
              plain,
              append-nil (reverse (count_from 1 (length b.params.fts_filters))),
            );
        order_first = order_clause-IsFirst b.params t b.params.order;
      }

-- A SELECT that is built from the parameters has one argument for each search, in their order, and
-- then those of the WHERE clause, in its order. The placeholders that the builder writes are
-- numbered from 1 on: the ranks come first in the text, in reverse, then the conditions in order;
-- and ORDER BY has number 1 only, and only where there is a search, so that the argument is the
-- term of the first one. (What a request names as a column of `_order` or of an aggregate goes into
-- the text as it is, and a `$n` in it is not counted.)
pub build_select-IsSelectNumbered :
    (b : Builder) {s : Statement} → build_select b ≡ ok s → IsSelectNumbered b s
unfolding build_select ranked
build_select-IsSelectNumbered b h =
    let (t, _, h1) = >>=-eq-ok (table_of b.table) _ h in
    let (list, l, h2) = >>=-eq-ok (select_list b t) _ h1 in
    let plain : Plain list = rw l at (select_list-Plain b t) in
    let (cond, w, e) = >>=-eq-ok (build_where b (ranked b t list plain).next) _ h2 in
    subst (IsSelectNumbered b) (ok-injective e) (select-IsSelectNumbered b t list plain cond w)

-- A count has one placeholder for each of its arguments, numbered from 1.
build_count-count_from :
    (b : Builder) {s : Statement}
    → build_count b ≡ ok s
    → placeholders s.sql ≡ count_from 1 (length s.args)
unfolding build_count
build_count-count_from b h =
    let (t, _, h') = >>=-eq-ok (table_of b.table) _ h in
    let (cond, w, e) = >>=-eq-ok (build_where b 1) _ h' in
    let numbered = build_where-IsNumbered b 1 w in
    subst (λ (r : Statement). placeholders r.sql ≡ count_from 1 (length r.args)) (ok-injective e)
      (rw (placeholders-where_clause, where_args_eq cond numbered) numbered.numbers_eq)
