-- ===== src/Api/Writes.antt =====
-- `HandlePatch` and `HandleDelete` of internal/api/handler.go.
pub mod Numbered
use rest_trans.Prelude.{ℕ, ◌+◌, some, none, List, [], ◌∷◌, ◌++◌, Text, codes, length}
use rest_trans.Prelude.Int.{ℤ}
use rest_trans.ApiErrors.{err_invalid_filter, err_invalid_body}
use rest_trans.Sql.{join_sql, render}
use rest_trans.Schema.{SchemaStore, qualified_name}
use rest_trans.Query.Params.{Params}
use rest_trans.Query.Parse.{Pairs}
use rest_trans.Query.Builder.Where.{Builder}
use rest_trans.Query.Builder.Write.{update_sql, set_clauses, build_delete}
use rest_trans.Response.{Reply, reply_error, write_updated, write_deleted}
use rest_trans.Api.{parse_params, build_where_from_params}
use rest_trans.Api.Types.{
  Request, Database, Checked, refused, passed, ◌>>=◌, check, writable_table, object_of,
  some_columns, row_args, parse_prefer, Prepared, strings, execute, database_error,
}

abbrev pub filter_refused : Text → Reply
filter_refused detail = record (reply_error [] (err_invalid_filter detail)) { status = 400 }

-- `c.JSON(400, ErrInvalidBody(…))`.
abbrev pub delete_refused : Text → Reply
delete_refused detail = record (reply_error [] (err_invalid_body detail)) { status = 400 }

module _ (visit : Pairs → Pairs) where
  -- `HandlePatch` up to its call of Exec. `visit` is as in `parse`.
  unfoldable pub prepare_patch : SchemaStore → Request → Checked Prepared
  unfolding writable_table parse_params some_columns row_args build_where_from_params set_clauses
      join_sql qualified_name
  prepare_patch store r = do
    t ← writable_table (codes "PATCH") store r
    row ← object_of r.body
    params ← check filter_refused (parse_params visit r.raw_query t)
    cols ← some_columns (codes "No valid columns to update") t row
    cond ← check filter_refused (build_where_from_params params (1 + length cols))
    passed (record {
      sql = update_sql (qualified_name t) cols cond.sql;
      args = row_args cols row ++ strings cond.args;
    })

  -- `HandlePatch`.
  unfoldable pub handle_patch : {S : Type 0} → Database S → SchemaStore → Request → S → Reply × S
  unfolding prepare_patch write_updated render parse_prefer
  handle_patch db store r s =
      execute db (λ n. write_updated [] n (parse_prefer r.prefer)) database_error s
        (prepare_patch store r)

  -- `HandleDelete` up to its call of Exec.
  unfoldable pub prepare_delete : SchemaStore → Request → Checked Prepared
  unfolding writable_table parse_params build_delete
  prepare_delete store r = do
    t ← writable_table (codes "DELETE") store r
    params ← check filter_refused (parse_params visit r.raw_query t)
    statement ← check delete_refused (
        build_delete
          (record { table = some t; params = params; schema_name = t.schema_name; store = none }))
    passed (record { sql = statement.sql; args = strings statement.args })

  -- `HandleDelete`.
  unfoldable pub handle_delete : {S : Type 0} → Database S → SchemaStore → Request → S → Reply × S
  unfolding prepare_delete write_deleted render parse_prefer
  handle_delete db store r s =
      execute db (λ n. write_deleted [] n (parse_prefer r.prefer)) database_error s
        (prepare_delete store r)
