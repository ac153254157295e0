-- ===== src/Api/Put.antt =====
-- `HandlePut` of internal/api/handler.go: one row, inserted or updated by its primary key.
pub mod Numbered
use rest_trans.Prelude.{
  ℕ, Bool, true, false, List, [], ◌∷◌, ◌++◌, map, Text, codes, is_empty, if◌then◌else◌,
}
use rest_trans.Prelude.Int.{ℤ}
use rest_trans.ApiErrors.{err_method_not_allowed}
use rest_trans.Sql.{Sql, lit, raw, join_sql, render}
use rest_trans.Schema.{Table, Column, SchemaStore, qualified_name, ordered_columns}
use rest_trans.Query.Builder.Write.{insert_sql, rows_from, excluded_clauses}
use rest_trans.Response.{
  Reply, reply_status, reply_error, contains_prefer, write_inserted, write_singular_json, row_of,
  Scanned, scan_error, cells,
}
use rest_trans.Api.Types.{
  Request, Database, Selected, query_error, selected, Checked, refused, passed, ◌>>=◌, ◌>>◌, unless,
  writable_table, object_of, some_columns, row_args, parse_prefer, Prepared, execute,
  database_error,
}

-- The primary key's error is sent with status 400.
abbrev pub no_key : Reply
no_key =
    record (reply_error [] (err_method_not_allowed (codes "Table has no primary key for upsert"))) {
      status = 400;
    }

abbrev pub put_action : List Sql → Sql
put_action [] = lit "DO NOTHING"
put_action (c ∷ cs) = join_sql (lit ", ") (c ∷ cs)

abbrev pub put_conflict : Text → List Text → Sql
put_conflict pk cols =
    lit " ON CONFLICT ("
    ++ (raw pk ++ (lit ") DO UPDATE SET " ++ put_action (excluded_clauses (pk ∷ []) cols)))

abbrev pub returning : Bool → Sql
returning wanted = if wanted then lit " RETURNING *" else []

abbrev pub wants_row : Request → Bool
wants_row r = contains_prefer (parse_prefer r.prefer) (codes "return=representation")

-- The handler up to its statement, with the table that it is for.
unfoldable pub prepare_put : SchemaStore → Request → Checked (Table × Prepared)
unfolding writable_table some_columns row_args rows_from excluded_clauses join_sql qualified_name
    contains_prefer parse_prefer
prepare_put store r = do
  t ← writable_table (codes "PUT") store r
  unless (is_empty t.pk) no_key
  row ← object_of r.body
  cols ← some_columns (codes "No valid columns") t row
  passed (
    t,
    record {
      sql =
          insert_sql (qualified_name t) cols 1
          ++ (put_conflict t.pk cols ++ returning (wants_row r));
      args = row_args cols row;
    },
  )

-- The first row that RETURNING gives.
abbrev pub returned : List Text → List Scanned → Reply
returned cols [] = reply_status [] 201
returned cols (scan_error e ∷ rows) = database_error e
returned cols (cells vals ∷ rows) = write_singular_json [] (row_of cols vals [])

abbrev pub returned_by : List Text → Selected → Reply
returned_by cols (query_error e) = database_error e
returned_by cols (selected other rows) = returned cols rows

abbrev pub return_row : {S : Type 0} → Database S → S → Checked (Table × Prepared) → Reply × S
return_row db s (refused r) = (r, s)
return_row db s (passed (t, p)) =
    let (answer, s') = db.query (render p.sql) p.args s in
    (returned_by (map (λ c. c.name) (ordered_columns t)) answer, s')

abbrev pub statement_of : Checked (Table × Prepared) → Checked Prepared
statement_of m = m >>= λ tp. passed tp.1

-- The end of the handler, by whether the row is wanted.
abbrev pub put_by :
    {S : Type 0} → Database S → Bool → (ℤ → Reply) → S → Checked (Table × Prepared) → Reply × S
put_by db true done s m = return_row db s m
put_by db false done s m = execute db done database_error s (statement_of m)

-- `HandlePut`.
unfoldable pub handle_put : {S : Type 0} → Database S → SchemaStore → Request → S → Reply × S
unfolding prepare_put write_inserted write_singular_json row_of ordered_columns render
handle_put db store r s =
    put_by db (wants_row r) (λ n. write_inserted [] n (parse_prefer r.prefer)) s
      (prepare_put store r)
