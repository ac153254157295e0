-- ===== src/Api/Post/Numbered.antt =====
-- The statement of a POST.
use mathlib.Core.List.{append-nil}
use rest_trans.Prelude.{
  ◌+◌, ◌*◌, List, [], ◌∷◌, ◌≡◌, refl, subst, arith, Text, codes, length, length-append, Bool-cases,
  inl, inr,
}
use rest_trans.Sql.{Sql, placeholders}
use rest_trans.Sql.Numbering.{placeholders-append}
use rest_trans.Schema.{Table, SchemaStore, qualified_name}
use rest_trans.Transaction.Types.{Row}
use rest_trans.Query.Builder.Write.Numbered.{insert_sql-count_from, on_conflict-placeholders}
use rest_trans.Response.{contains_prefer}
use rest_trans.Api.Types.{
  Request, passed, writable_table, row_args, some_columns, Prepared, parse_prefer,
}
use rest_trans.Api.Writes.Numbered.{IsBalanced, >>=-eq-passed, passed_injective, length-row_args}
use rest_trans.Api.Post.{
  rows_of, all_args, conflict_columns, merge_clause, resolution, prepare_post,
}

length-all_args :
    (cols : List Text) (rows : List Row) → length (all_args cols rows) ≡ length rows * length cols
unfolding all_args
length-all_args cols [] = let e : 0 * length cols ≡ 0 = omega arith in rw e
length-all_args cols (row ∷ rows) =
    let e : (length rows + 1) * length cols ≡ length cols + length rows * length cols =
      omega arith in
    omega (
      arith,
      e,
      length-append {0} (row_args cols row) (all_args cols rows),
      length-row_args cols row,
      length-all_args cols rows,
    )

merge_clause-placeholders :
    (cols conflict : List Text) → placeholders (merge_clause cols conflict) ≡ []
merge_clause-placeholders cols [] = refl
merge_clause-placeholders cols (k ∷ ks) = on_conflict-placeholders (k ∷ ks) cols

-- What `Prefer` adds has no placeholder.
resolution-placeholders :
    (t : Table) (given : Text) (prefer cols : List Text) {s : Sql}
    → resolution t given prefer cols ≡ passed s
    → placeholders s ≡ []
unfolding resolution
resolution-placeholders t given prefer cols h =
    elim (Bool-cases (contains_prefer prefer (codes "resolution=merge-duplicates"))) [
      | inl merge ↦
          let (conflict, _, e) = >>=-eq-passed (conflict_columns t given) _ (rw merge at h) in
          subst (λ s. placeholders s ≡ []) (passed_injective e)
            (merge_clause-placeholders cols conflict)
      | inr plain ↦
          subst (λ s. placeholders s ≡ []) (passed_injective (rw plain at h)) (ground arith)
    ]

-- A POST sends an INSERT with one placeholder for each of its arguments, in their order: there is an argument for
-- each column of each row, the columns being those of the first row, and a conflict clause adds none.
pub prepare_post-IsBalanced :
    (store : SchemaStore) (r : Request) {p : Prepared}
    → prepare_post store r ≡ passed p
    → IsBalanced p
unfolding prepare_post
prepare_post-IsBalanced store r h =
    let (t, _, h1) = >>=-eq-passed (writable_table (codes "POST") store r) _ h in
    let (rows, _, h2) = >>=-eq-passed (rows_of r.body) _ h1 in
    let (cols, _, h3) = >>=-eq-passed (some_columns (codes "No valid columns") t rows.0) _ h2 in
    let (clause, c, e) =
      >>=-eq-passed (resolution t r.on_conflict (parse_prefer r.prefer) cols) _ h3 in
    let none_more = resolution-placeholders t r.on_conflict (parse_prefer r.prefer) cols c in
    subst IsBalanced (passed_injective e) (
      rw (length-all_args cols (rows.0 ∷ rows.1), placeholders-append, none_more, append-nil)
        (insert_sql-count_from (qualified_name t) cols (length (rows.0 ∷ rows.1))))
