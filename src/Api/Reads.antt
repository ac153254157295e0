-- ===== src/Api/Reads.antt =====
-- `HandleGet`, `HandleHead` and `HandleOptions` of internal/api/handler.go.
use rest_trans.Prelude.{
  Bool, false, ◌&&◌, Option, none, some, List, [], Text, codes, contains, ◌==◌, if◌then◌else◌,
}
use rest_trans.Prelude.Int.{ℤ, pos, negsuc, ltb_ℤ}
use rest_trans.ApiErrors.{err_table_not_found, err_invalid_filter}
use rest_trans.Sql.{render}
use rest_trans.Schema.{Table, SchemaStore, ordered_columns}
use rest_trans.Query.Params.{Params, Range, has_count}
use rest_trans.Query.Parse.{Pairs}
use rest_trans.Query.Builder.Select.{build_select}
use rest_trans.Response.{
  Headers, Reply, reply_error, reply_status, table_info, set_header, Scanned, write_csv,
  write_singular, write_json,
}
use rest_trans.Response.Range.{parse_range_header, set_range_headers}
use rest_trans.Api.{parse_params, count_statement}
use rest_trans.Api.Types.{
  Request, columns_error, named, Selected, query_error, selected, Counted, count_error, counted,
  Database, Checked, refused, passed, ◌>>=◌, check, table_or, resolve_table, strings, Prepared,
  database_error,
}

abbrev select_refused : Text → Reply
select_refused detail = reply_error [] (err_invalid_filter detail)

abbrev is_zero : ℤ → Bool
is_zero (pos n) = n == 0
is_zero (negsuc n) = false

-- The header `Range` gives what the query string does not.
abbrev merged : Range → Option (ℤ × ℤ) → Range
merged range none = range
merged range (some (limit, offset)) = record {
  limit = if ltb_ℤ range.limit (pos 0) then limit else range.limit;
  offset = if is_zero range.offset && ltb_ℤ (pos 0) offset then offset else range.offset;
}

abbrev with_default : Range → Range
with_default range = record range {
  limit = if ltb_ℤ range.limit (pos 0) then pos 1000 else range.limit;
}

-- The rows that a GET asks for.
unfoldable pub page_of : Text → Params → Params
unfolding parse_range_header
page_of header params = record params {
  range = with_default (merged params.range (parse_range_header header));
}

-- The error of a count in HandleHead.
abbrev silent : Checked ℤ → Checked ℤ
silent (refused r) = refused (reply_status [] r.status)
silent (passed n) = passed n

abbrev options_of : Option Table → Reply
options_of none = reply_status [] 404
options_of (some t) = record {
  status = 200;
  headers =
      set_header (codes "Allow")
        (if t.is_view
          then codes "GET, HEAD, OPTIONS"
          else codes "GET, HEAD, POST, PUT, PATCH, DELETE, OPTIONS")
        [];
  content = table_info (record {
    table_name = t.name;
    schema = t.schema_name;
    is_view = t.is_view;
    primary_key = t.pk;
    columns = ordered_columns t;
    foreign_keys = t.foreign_keys;
  });
}

module _ {S : Type 0} (db : Database S) where
  abbrev counted_by : Counted → Checked ℤ
  counted_by (count_error e) = refused (database_error e)
  counted_by (counted n) = passed n

  -- `executeCount`. The error of the builder is answered as one of the database.
  unfoldable pub execute_count : Table → Params → S → Checked ℤ
  unfolding count_statement render
  execute_count t params s = check database_error (count_statement t params) >>= λ c.
      counted_by (db.count (render c.sql) (strings c.args) s)

  abbrev total_of : Table → Params → S → Checked ℤ
  total_of t params s = if has_count params then execute_count t params s else passed (pos 0)

  abbrev range_headers : Params → ℤ → Headers
  range_headers params total =
      if has_count params && ltb_ℤ (pos 0) total
      then set_range_headers [] params.range.limit params.range.offset total
      else []

  -- The choice of a format. Nothing sets the key that WriteJSON reads for `Content-Profile`.
  abbrev written : Request → Headers → List Text → List Scanned → Reply
  written r hs cols rows =
      if contains (codes "text/csv") r.accept
      then write_csv hs r.table cols rows
      else if contains (codes "application/vnd.pgrst.object+json") r.accept
      then write_singular hs cols rows
      else write_json hs [] cols rows

  abbrev answered : Request → Headers → Selected → Reply
  answered r hs (query_error e) = database_error e
  answered r hs (selected (columns_error e) rows) = database_error e
  answered r hs (selected (named cols) rows) = written r hs cols rows

  abbrev run_get : Request → S → Checked (Headers × Prepared) → Reply × S
  run_get r s (refused a) = (a, s)
  run_get r s (passed (hs, p)) =
      let (answer, s') = db.query (render p.sql) p.args s in (answered r hs answer, s')

  abbrev run_head : Checked Headers → Reply
  run_head (refused a) = a
  run_head (passed hs) = reply_status hs 200

  module _ (visit : Pairs → Pairs) where
    -- `HandleGet` up to its query.
    unfoldable pub prepare_get : SchemaStore → Request → S → Checked (Headers × Prepared)
    unfolding resolve_table parse_params page_of execute_count has_count set_range_headers
        build_select
    prepare_get store r s = do
      t ← table_or (reply_error [] (err_table_not_found r.table)) store r
      asked ← check select_refused (parse_params visit r.raw_query t)
      let params = page_of r.range asked
      total ← total_of t params s
      st ← check select_refused (
          build_select (record {
            table = some t;
            params = params;
            schema_name = t.schema_name;
            store = some store;
          }))
      passed (range_headers params total, record { sql = st.sql; args = strings st.args })

    -- `HandleGet`.
    unfoldable pub handle_get : SchemaStore → Request → S → Reply × S
    unfolding prepare_get write_csv write_singular write_json contains render
    handle_get store r s = run_get r s (prepare_get store r s)

    -- `HandleHead`: the count is made whether or not it is asked for, and no header `Range` is read.
    unfoldable pub handle_head : SchemaStore → Request → S → Reply
    unfolding resolve_table parse_params execute_count set_range_headers
    handle_head store r s = run_head (do
      t ← table_or (reply_status [] 404) store r
      params ← check (λ e. reply_status [] 400) (parse_params visit r.raw_query t)
      total ← silent (execute_count t params s)
      let range = with_default params.range
      passed (set_range_headers [] range.limit range.offset total))

-- `HandleOptions`.
unfoldable pub handle_options : SchemaStore → Request → Reply
unfolding resolve_table set_header ordered_columns
handle_options store r = options_of (resolve_table store r)
