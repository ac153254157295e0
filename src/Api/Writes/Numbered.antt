-- ===== src/Api/Writes/Numbered.antt =====
-- The statements of PATCH and DELETE: as many placeholders as arguments.
use rest_trans.Prelude.{
  ◌+◌, List, [], ◌∷◌, ◌++◌, ◌≡◌, refl, subst, arith, Text, codes, length, length-append, ok, err,
  Result, some, none,
}
use rest_trans.Sql.{placeholders, count_from}
use rest_trans.Sql.Numbering.{count_from-append}
use rest_trans.Schema.{SchemaStore}
use rest_trans.Transaction.Types.{Row}
use rest_trans.Query.Parse.{Pairs}
use rest_trans.Query.Builder.Where.{Builder}
use rest_trans.Query.Builder.Where.Numbered.{build_where-IsNumbered}
use rest_trans.Query.Builder.Write.{build_delete}
use rest_trans.Query.Builder.Write.Numbered.{update_sql-placeholders, build_delete-count_from}
use rest_trans.Api.{build_where_from_params, parse_params}
use rest_trans.Response.{Reply}
use rest_trans.Api.Types.{
  Request, Checked, refused, passed, check, writable_table, row_args, some_columns, object_of,
  Prepared, strings, ◌>>=◌,
}
use rest_trans.Api.Writes.{prepare_patch, prepare_delete, filter_refused, delete_refused}

-- One placeholder for each argument, numbered from 1 in the order of the text.
abbrev pub IsBalanced : Prepared → Type 0
IsBalanced p = placeholders p.sql ≡ count_from 1 (length p.args)

pub length-row_args : (cols : List Text) (row : Row) → length (row_args cols row) ≡ length cols
unfolding row_args
length-row_args [] row = refl
length-row_args (c ∷ cols) row = omega (arith, length-row_args cols row)

length-strings : (ts : List Text) → length (strings ts) ≡ length ts
length-strings [] = refl
length-strings (t ∷ ts) = omega (arith, length-strings ts)

-- What a link of a chain has passed on.
pub >>=-eq-passed :
    {A B : Type 0} (m : Checked A) (k : A → Checked B) {b : B}
    → (m >>= k) ≡ passed b
    → (a : A) × (m ≡ passed a) × (k a ≡ passed b)
>>=-eq-passed (refused r) k h = cc
>>=-eq-passed (passed a) k h = (a, refl, h)

check-eq-passed :
    {A : Type 0} (f : Text → Reply) (m : Result A) {a : A} → check f m ≡ passed a → m ≡ ok a
check-eq-passed f (ok a) h = cc
check-eq-passed f (err e) h = cc

pub passed_injective : {A : Type 0} {a b : A} → passed a ≡ passed b → a ≡ b
passed_injective h = cc

-- A PATCH sends a statement with one placeholder for each of its arguments, in their order: first
-- those of the columns that are set, then those of the WHERE clause.
pub prepare_patch-IsBalanced :
    (visit : Pairs → Pairs) (store : SchemaStore) (r : Request) {p : Prepared}
    → prepare_patch visit store r ≡ passed p
    → IsBalanced p
unfolding prepare_patch build_where_from_params
prepare_patch-IsBalanced visit store r h =
    let (t, _, h1) = >>=-eq-passed (writable_table (codes "PATCH") store r) _ h in
    let (row, _, h2) = >>=-eq-passed (object_of r.body) _ h1 in
    let (params, _, h3) =
      >>=-eq-passed (check filter_refused (parse_params visit r.raw_query t)) _ h2 in
    let (cols, _, h4) =
      >>=-eq-passed (some_columns (codes "No valid columns to update") t row) _ h3 in
    let (cond, w, e) =
      >>=-eq-passed (check filter_refused (build_where_from_params params (1 + length cols))) _
        h4 in
    let numbered =
      build_where-IsNumbered
        (record { table = none; params = params; schema_name = []; store = none }) (1 + length cols)
        (check-eq-passed filter_refused (build_where_from_params params (1 + length cols)) w) in
    let args = row_args cols row ++ strings cond.args in
    let size : length args ≡ length cols + length cond.args = omega (
      arith,
      length-append {0} (row_args cols row) (strings cond.args),
      length-row_args cols row,
      length-strings cond.args,
    ) in
    subst IsBalanced (passed_injective e) (
      rw (update_sql-placeholders, numbered.numbers_eq, size)
        (count_from-append 1 (length cols) (length cond.args)))

-- A DELETE sends a statement with one placeholder for each of its arguments, in their order.
pub prepare_delete-IsBalanced :
    (visit : Pairs → Pairs) (store : SchemaStore) (r : Request) {p : Prepared}
    → prepare_delete visit store r ≡ passed p
    → IsBalanced p
unfolding prepare_delete
prepare_delete-IsBalanced visit store r h =
    let (t, _, h1) = >>=-eq-passed (writable_table (codes "DELETE") store r) _ h in
    let (params, _, h2) =
      >>=-eq-passed (check filter_refused (parse_params visit r.raw_query t)) _ h1 in
    let b : Builder = record {
      table = some t;
      params = params;
      schema_name = t.schema_name;
      store = none;
    } in
    let (st, w, e) = >>=-eq-passed (check delete_refused (build_delete b)) _ h2 in
    subst IsBalanced (passed_injective e) (
      rw (length-strings st.args)
        (build_delete-count_from b (check-eq-passed delete_refused (build_delete b) w)))
