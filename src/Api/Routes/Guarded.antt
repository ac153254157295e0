-- ===== src/Api/Routes/Guarded.antt =====
-- What a request must meet before its handler sends a statement.
use rest_trans.Prelude.{
  ◌≡◌, refl, sym, ap, ◌∙◌, Bool, true, false, Option, none, some, List, [], ◌∷◌, All, Text, codes,
  inl, inr, Bool-cases, subst, is_empty,
}
use rest_trans.ApiErrors.{err_table_not_found}
use rest_trans.Schema.{Table, SchemaStore, find, is_some}
use rest_trans.Transaction.Types.{Value, Row}
use rest_trans.Query.Parse.{Pairs}
use rest_trans.Response.{Reply, reply_error}
use rest_trans.Api.{parse_params}
use rest_trans.Api.Types.{
  Body, unreadable, empty, malformed, array, object, Request, passed, resolve_table, table_or,
  found, view_refused, writable_table, unless, object_of, columns_in, some_columns, Prepared, check,
}
use rest_trans.Api.Post.{rows_of}
use rest_trans.Api.Put.{no_key, prepare_put}
use rest_trans.Api.Writes.{filter_refused}
use rest_trans.Api.Writes.Numbered.{>>=-eq-passed, passed_injective}
use rest_trans.Api.Routes.{Method, post, put, patch, delete, written_row, prepare_write}

-- The table is known and no view, and every key that is written is one of its columns.
pub record IsGuarded (store : SchemaStore) (r : Request) (row : Row) : Type 0 where
  pub table : Table
  pub found : resolve_table store r ≡ some table
  pub no_view : table.is_view ≡ false
  pub known : All (λ (kv : Text × Value). is_some (find kv.0 table.columns) ≡ true) row

unless-false : (b : Bool) (r : Reply) {u : Unit {0}} → unless b r ≡ passed u → b ≡ false
unless-false true r h = cc
unless-false false r h = refl

found-some :
    (missing : Reply) (o : Option Table) {t : Table} → found missing o ≡ passed t → o ≡ some t
found-some missing none h = cc
found-some missing (some t) h = ap some (passed_injective h)

writable_table_lem :
    (method : Text) (store : SchemaStore) (r : Request) {t : Table}
    → writable_table method store r ≡ passed t
    → (resolve_table store r ≡ some t) × (t.is_view ≡ false)
unfolding writable_table
writable_table_lem method store r h =
    let missing = reply_error [] (err_table_not_found r.table) in
    let (t, f, h1) = >>=-eq-passed (table_or missing store r) _ h in
    let (_, v, e) = >>=-eq-passed (unless t.is_view (view_refused method r)) _ h1 in
    let same = passed_injective e in
    (
      found-some missing (resolve_table store r) f ∙ ap some same,
      subst (λ (t : Table). t.is_view ≡ false) same (unless-false t.is_view _ v),
    )

columns_in-known :
    (t : Table) (row : Row) {cols : List Text}
    → columns_in t row ≡ passed cols
    → All (λ (kv : Text × Value). is_some (find kv.0 t.columns) ≡ true) row
unfolding columns_in
columns_in-known t [] h = tt
columns_in-known t ((col, v) ∷ row) h = elim (Bool-cases (is_some (find col t.columns))) [
  | inl e ↦
      let (cols, c, _) = >>=-eq-passed (columns_in t row) _ (rw e at h) in
      (e, columns_in-known t row c)
  | inr e ↦ cc (rw e at h)
]

some_columns-known :
    (detail : Text) (t : Table) (row : Row) {cols : List Text}
    → some_columns detail t row ≡ passed cols
    → All (λ (kv : Text × Value). is_some (find kv.0 t.columns) ≡ true) row
unfolding some_columns
some_columns-known detail t row h =
    let (cols, c, _) = >>=-eq-passed (columns_in t row) _ h in columns_in-known t row c

first_row :
    (b : Body) {rows : Row × List Row} → rows_of b ≡ passed rows → rows.0 ≡ written_row post b
first_row (unreadable e) h = cc
first_row empty h = cc
first_row (malformed e) h = cc
first_row (array []) h = cc
first_row (array (row ∷ rows)) h = ap (λ (x : Row × List Row). x.0) (sym (passed_injective h))
first_row (object row) h = ap (λ (x : Row × List Row). x.0) (sym (passed_injective h))

only_row : (b : Body) {row : Row} → object_of b ≡ passed row → row ≡ written_row put b
only_row (unreadable e) h = cc
only_row empty h = cc
only_row (malformed e) h = cc
only_row (array rows) h = cc
only_row (object row) h = sym (passed_injective h)

only_row_patch : (b : Body) {row : Row} → object_of b ≡ passed row → row ≡ written_row patch b
only_row_patch (unreadable e) h = cc
only_row_patch empty h = cc
only_row_patch (malformed e) h = cc
only_row_patch (array rows) h = cc
only_row_patch (object row) h = sym (passed_injective h)

guarded :
    (method detail : Text) (store : SchemaStore) (r : Request) (row : Row) {t : Table}
    {cols : List Text}
    → writable_table method store r ≡ passed t
    → some_columns detail t row ≡ passed cols
    → IsGuarded store r row
guarded method detail store r row {t} w c =
    let (f, v) = writable_table_lem method store r w in
    record { table = t; found = f; no_view = v; known = some_columns-known detail t row c }

-- Whatever the method, a statement is sent only for a table that the store has and that is no view, and only where
-- every key of the row whose keys are written is a column of that table.
pub prepare_write-IsGuarded :
    (visit : Pairs → Pairs) (m : Method) (store : SchemaStore) (r : Request) {p : Prepared}
    → prepare_write visit m store r ≡ passed p
    → IsGuarded store r (written_row m r.body)
unfolding prepare_write
prepare_write-IsGuarded visit post store r h =
    let (t, w, h1) = >>=-eq-passed (writable_table (codes "POST") store r) _ h in
    let (rows, b, h2) = >>=-eq-passed (rows_of r.body) _ h1 in
    let (cols, c, _) = >>=-eq-passed (some_columns (codes "No valid columns") t rows.0) _ h2 in
    subst (IsGuarded store r) (first_row r.body b)
      (guarded (codes "POST") (codes "No valid columns") store r rows.0 w c)
prepare_write-IsGuarded visit put store r h =
    let (_, h0, _) = >>=-eq-passed (prepare_put store r) _ h in
    let (t, w, h1) = >>=-eq-passed (writable_table (codes "PUT") store r) _ h0 in
    let (_, _, h2) = >>=-eq-passed (unless (is_empty t.pk) no_key) _ h1 in
    let (row, b, h3) = >>=-eq-passed (object_of r.body) _ h2 in
    let (cols, c, _) = >>=-eq-passed (some_columns (codes "No valid columns") t row) _ h3 in
    subst (IsGuarded store r) (only_row r.body b)
      (guarded (codes "PUT") (codes "No valid columns") store r row w c)
prepare_write-IsGuarded visit patch store r h =
    let (t, w, h1) = >>=-eq-passed (writable_table (codes "PATCH") store r) _ h in
    let (row, b, h2) = >>=-eq-passed (object_of r.body) _ h1 in
    let (params, _, h3) =
      >>=-eq-passed (check filter_refused (parse_params visit r.raw_query t)) _ h2 in
    let (cols, c, _) =
      >>=-eq-passed (some_columns (codes "No valid columns to update") t row) _ h3 in
    subst (IsGuarded store r) (only_row_patch r.body b)
      (guarded (codes "PATCH") (codes "No valid columns to update") store r row w c)
prepare_write-IsGuarded visit delete store r h =
    let (t, w, _) = >>=-eq-passed (writable_table (codes "DELETE") store r) _ h in
    let (f, v) = writable_table_lem (codes "DELETE") store r w in
    record { table = t; found = f; no_view = v; known = tt }
