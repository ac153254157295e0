-- ===== src/Api/Put/Numbered.antt =====
-- The statement of a PUT.
use mathlib.Core.List.{append-nil}
use rest_trans.Prelude.{
  ◌*◌, Bool, true, false, List, [], ◌∷◌, ◌++◌, ◌≡◌, refl, sym, ap, ◌∙◌, subst, arith, Text, codes,
  length, is_empty,
}
use rest_trans.Sql.{Sql, placeholders}
use rest_trans.Sql.Numbering.{placeholders-append, all_placeholders, placeholders-join_sql}
use rest_trans.Schema.{Table, SchemaStore, qualified_name}
use rest_trans.Query.Builder.Write.{insert_sql}
use rest_trans.Query.Builder.Write.Numbered.{insert_sql-count_from, excluded-placeholders}
use rest_trans.Api.Types.{
  Request, passed, writable_table, unless, row_args, object_of, some_columns, Prepared,
}
use rest_trans.Api.Writes.Numbered.{IsBalanced, >>=-eq-passed, passed_injective, length-row_args}
use rest_trans.Api.Put.{
  put_action, put_conflict, returning, wants_row, no_key, prepare_put, statement_of,
}

put_action-placeholders :
    (cs : List Sql) → all_placeholders cs ≡ [] → placeholders (put_action cs) ≡ []
put_action-placeholders [] h = refl
put_action-placeholders (c ∷ cs) h = rw placeholders-join_sql h

put_tail-placeholders :
    (pk : Text) (cols : List Text) (wanted : Bool)
    → placeholders (put_conflict pk cols ++ returning wanted) ≡ []
put_tail-placeholders pk cols true =
    simp (placeholders-append, append-nil)
      (put_action-placeholders _ (excluded-placeholders (pk ∷ []) cols))
put_tail-placeholders pk cols false =
    simp (placeholders-append, append-nil)
      (put_action-placeholders _ (excluded-placeholders (pk ∷ []) cols))

-- A PUT sends a statement with one placeholder for each column of its row and no other.
pub prepare_put-IsBalanced :
    (store : SchemaStore) (r : Request) {p : Prepared}
    → statement_of (prepare_put store r) ≡ passed p
    → IsBalanced p
unfolding prepare_put
prepare_put-IsBalanced store r h =
    let (tp, h0, e0) = >>=-eq-passed (prepare_put store r) _ h in
    let (t, _, h1) = >>=-eq-passed (writable_table (codes "PUT") store r) _ h0 in
    let (_, _, h2) = >>=-eq-passed (unless (is_empty t.pk) no_key) _ h1 in
    let (row, _, h3) = >>=-eq-passed (object_of r.body) _ h2 in
    let (cols, _, e) = >>=-eq-passed (some_columns (codes "No valid columns") t row) _ h3 in
    let q : Prepared = record {
      sql =
          insert_sql (qualified_name t) cols 1
          ++ (put_conflict t.pk cols ++ returning (wants_row r));
      args = row_args cols row;
    } in
    let balanced : IsBalanced q =
      let one : 1 * length cols ≡ length cols = omega arith in
      rw
        (
          length-row_args cols row,
          placeholders-append,
          put_tail-placeholders t.pk cols (wants_row r),
          append-nil,
          insert_sql-count_from (qualified_name t) cols 1,
          one,
        )
        refl in
    let same : tp ≡ (t, q) = passed_injective (sym e) in
    subst IsBalanced (ap (λ (x : Table × Prepared). x.1) (sym same) ∙ passed_injective e0) balanced
