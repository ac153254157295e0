-- ===== src/Rpc.antt =====
-- internal/rpc/handler.go: a call of a database function.
mod Tests
pub mod Numbered
use rest_trans.Prelude.{
  ℕ, ◌+◌, Bool, true, false, ◌||◌, not, Option, none, some, List, [], ◌∷◌, ◌++◌, Text, codes,
  text_eq, to_lower, is_empty, if◌then◌else◌,
}
use rest_trans.ApiErrors.{ApiError}
use rest_trans.Sql.{Sql, raw, lit, placeholder, join_sql, render}
use rest_trans.Schema.{SchemaStore, find, get_function, qualify}
use rest_trans.Schema.Functions.{FuncArg, Function}
use rest_trans.Transaction.Types.{Value, null, Row}
use rest_trans.Query.Builder.Write.{listed}
use rest_trans.Response.{Reply, reply_error, json_rows, Scanned, scan_error, cells, row_of}
use rest_trans.Api.Types.{
  Body, unreadable, empty, malformed, array, object, Request, Columns, columns_error, named,
  Selected, query_error, selected, Checked, refused, passed, ◌>>=◌, schema_of, body_refused,
  object_of, database_error,
}

-- An argument of a call: a value, or the bytes of the JSON that encodes it.
pub data CallArg : Type 0 where
  plain : Value → CallArg
  encoded : Value → CallArg

-- A function that is called may write.
pub record Caller (S : Type 0) : Type 0 where
  pub call : Text → List CallArg → S → Selected × S

-- `goTypeToPGCast`.
unfoldable pub go_type_to_pg_cast : Text → Text
unfolding to_lower text_eq
go_type_to_pg_cast pg_type =
    let t = to_lower pg_type in
    if listed t (
      codes "integer"
      ∷ codes "int"
      ∷ codes "int4"
      ∷ codes "bigint"
      ∷ codes "int8"
      ∷ codes "smallint"
      ∷ codes "int2"
      ∷ codes "serial"
      ∷ codes "bigserial"
      ∷ [])
    then codes "int"
    else if listed t (
        codes "real"
        ∷ codes "float4"
        ∷ codes "double precision"
        ∷ codes "float8"
        ∷ codes "numeric"
        ∷ codes "decimal"
        ∷ [])
    then codes "numeric"
    else if listed t (codes "boolean" ∷ codes "bool" ∷ [])
    then codes "boolean"
    else if listed t (codes "json" ∷ codes "jsonb" ∷ [])
    then codes "jsonb"
    else if listed t (codes "uuid" ∷ [])
    then codes "uuid"
    else if listed t (
        codes "date"
        ∷ codes "timestamp"
        ∷ codes "timestamptz"
        ∷ codes "timestamp without time zone"
        ∷ codes "timestamp with time zone"
        ∷ [])
    then codes "timestamptz"
    else codes "text"

abbrev given : FuncArg → Option Value → CallArg
given arg none = plain null
given arg (some v) =
    if text_eq arg.arg_type (codes "jsonb") || text_eq arg.arg_type (codes "json")
    then encoded v
    else plain v

-- The loop over the arguments: their values, by name, and their placeholders.
unfoldable pub call_args : List FuncArg → Row → List CallArg
unfolding find text_eq
call_args [] args = []
call_args (arg ∷ arguments) args = given arg (find arg.name args) ∷ call_args arguments args

unfoldable pub call_placeholders : ℕ → List FuncArg → List Sql
unfolding go_type_to_pg_cast
call_placeholders idx [] = []
call_placeholders idx (arg ∷ arguments) =
    (placeholder idx ++ (lit "::" ++ raw (go_type_to_pg_cast arg.arg_type)))
    ∷ call_placeholders (idx + 1) arguments

abbrev pub call_sql : Text → List FuncArg → Sql
call_sql func arguments =
    lit "SELECT * FROM "
    ++ (raw func ++ (lit "(" ++ (join_sql (lit ", ") (call_placeholders 1 arguments) ++ lit ")")))

-- The body: with no byte there are no arguments.
abbrev pub named_args : Body → Checked Row
named_args empty = passed []
named_args (unreadable e) = object_of (unreadable e)
named_args (malformed e) = object_of (malformed e)
named_args (array rows) = object_of (array rows)
named_args (object row) = object_of (object row)

abbrev no_function : Text → Reply
no_function func = reply_error [] (record {
  code = codes "PGRST205";
  message = codes "Function '" ++ (func ++ codes "' not found");
  details = [];
  hint = [];
  status = 404;
})

abbrev pub known : Text → Option Function → Checked Function
known func none = refused (no_function func)
known func (some fn) = passed fn

abbrev pub schema_or_default : SchemaStore → Request → Text
schema_or_default store r = if is_empty (schema_of r) then store.default_schema else schema_of r

pub record Call : Type 0 where
  pub sql : Sql
  pub args : List CallArg

-- The handler up to its query; the function's name stands where a table's would in the request.
unfoldable pub prepare_call : SchemaStore → Request → Checked Call
unfolding get_function call_args call_placeholders join_sql text_eq
prepare_call store r = do
  fn ← known r.table (get_function store (schema_or_default store r) r.table)
  args ← named_args r.body
  passed (record {
    sql = call_sql (qualify (schema_or_default store r) r.table) fn.arguments;
    args = call_args fn.arguments args;
  })

-- The loop over the rows.
unfoldable pub result_rows : List Text → List Scanned → List Row → Reply
unfolding row_of
result_rows cols [] results = record { status = 200; headers = []; content = json_rows results }
result_rows cols (scan_error e ∷ rows) results = database_error e
result_rows cols (cells vals ∷ rows) results =
    result_rows cols rows (results ++ row_of cols vals [] ∷ [])

abbrev result_of : Selected → Reply
result_of (query_error e) = database_error e
result_of (selected (columns_error e) rows) = database_error e
result_of (selected (named cols) rows) = result_rows cols rows []

abbrev run_call : {S : Type 0} → Caller S → S → Checked Call → Reply × S
run_call db s (refused a) = (a, s)
run_call db s (passed c) =
    let (answer, s') = db.call (render c.sql) c.args s in (result_of answer, s')

-- `HandleRPC`.
unfoldable pub handle_rpc : {S : Type 0} → Caller S → SchemaStore → Request → S → Reply × S
unfolding prepare_call result_rows render
handle_rpc db store r s = run_call db s (prepare_call store r)
