-- ===== src/Api/Types.antt =====
-- What the handlers of internal/api/handler.go share: the request, the database, and early returns.
use rest_trans.Prelude.{
  Bool, true, false, not, Option, none, some, List, [], ◌∷◌, ◌++◌, map, Text, codes, is_empty,
  split, trim_space, if◌then◌else◌, Result, ok, err, Error, nil_table, out_of_fuel, error_message,
}
use rest_trans.Prelude.Int.{ℤ}
use rest_trans.ApiErrors.{err_table_not_found, err_invalid_body, err_invalid_column, err_database}
use rest_trans.Schema.{Table, SchemaStore, find, is_some, get_table}
use rest_trans.Transaction.Types.{Value, null, string, compound, Row}
use rest_trans.Sql.{Sql, render}
use rest_trans.Response.{Reply, reply_error, reply_status, Scanned}

-- A body: what reading it failed with, no byte, what decoding it failed with, or what it holds. A
-- body that begins with `[` is an array; `null` is an object with no key.
pub data Body : Type 0 where
  unreadable : Text → Body
  empty : Body
  malformed : Text → Body
  array : List Row → Body
  object : Row → Body

-- `on_conflict` is `c.Query("on_conflict")`.
pub record Request : Type 0 where
  pub schema : Text
  pub table : Text
  pub content_profile : Text
  pub accept_profile : Text
  pub range : Text
  pub accept : Text
  pub prefer : Text
  pub raw_query : Text
  pub on_conflict : Text
  pub body : Body

-- An Exec: the text of its error, or the affected rows and what it leaves.
pub data Ran (S : Type 0) : Type 0 where
  failed : Text → Ran S
  ran : ℤ → S → Ran S

-- What Columns gives: an error, or the names.
pub data Columns : Type 0 where
  columns_error : Text → Columns
  named : List Text → Columns

-- A Query: its error, or the columns and the rows.
pub data Selected : Type 0 where
  query_error : Text → Selected
  selected : Columns → List Scanned → Selected

-- A count: the text of its error, or the number.
pub data Counted : Type 0 where
  count_error : Text → Counted
  counted : ℤ → Counted

-- PostgreSQL, whose contents are an `S`. A query may write, by RETURNING. Nothing is assumed of it.
pub record Database (S : Type 0) : Type 0 where
  pub exec : Text → List Value → S → Ran S
  pub query : Text → List Value → S → Selected × S
  pub count : Text → List Value → S → Counted

-- A handler up to some point: it has answered, or goes on.
pub data Checked {ℓ} (A : Type ℓ) : Type ℓ where
  refused : Reply → Checked A
  passed : A → Checked A

infixl 5 ◌>>=◌ ◌>>◌
abbrev pub ◌>>=◌ {ℓ κ} : {A : Type ℓ} {B : Type κ} → Checked A → (A → Checked B) → Checked B
refused r >>= k = refused r
passed a >>= k = k a

abbrev pub ◌>>◌ {ℓ} : {B : Type ℓ} → Checked (Unit {0}) → Checked B → Checked B
m >> k = m >>= λ _. k

-- `if test { …; return }`.
abbrev pub unless : Bool → Reply → Checked (Unit {0})
unless true r = refused r
unless false r = passed tt

-- The answer to an error of package query; a panic is answered by gin's Recovery.
abbrev pub rejected : (Text → Reply) → Error → Reply
rejected f nil_table = reply_status [] 500
rejected f out_of_fuel = reply_status [] 500
rejected f e = f (error_message e)

abbrev pub check {ℓ} : {A : Type ℓ} → (Text → Reply) → Result A → Checked A
check f (ok a) = passed a
check f (err e) = refused (rejected f e)

abbrev or_profile : Text → Text → Text → Text
or_profile schema_name content accept =
    if not (is_empty schema_name) then schema_name else if is_empty content then accept else content

abbrev pub schema_of : Request → Text
schema_of r = or_profile r.schema r.content_profile r.accept_profile

-- `resolveTable`.
unfoldable pub resolve_table : SchemaStore → Request → Option Table
unfolding get_table
resolve_table store r = get_table store (schema_of r) r.table

abbrev pub found : Reply → Option Table → Checked Table
found missing none = refused missing
found missing (some t) = passed t

abbrev pub table_or : Reply → SchemaStore → Request → Checked Table
table_or missing store r = found missing (resolve_table store r)

abbrev pub view_refused : Text → Request → Reply
view_refused method r = reply_error [] (record {
  code = codes "PGRST201";
  message =
      codes "Method "
      ++ (method
          ++ (codes " is not allowed on view "
              ++ (schema_of r ++ (codes "." ++ (r.table ++ codes ": views are read-only")))));
  details = [];
  hint = [];
  status = 405;
})

-- How each handler that writes begins: the table is known, and no view.
unfoldable pub writable_table : Text → SchemaStore → Request → Checked Table
unfolding resolve_table
writable_table method store r = do
  t ← table_or (reply_error [] (err_table_not_found r.table)) store r
  unless t.is_view (view_refused method r)
  passed t

abbrev pub body_refused : Text → Reply
body_refused detail = reply_error [] (err_invalid_body detail)

abbrev not_an_object : Text
not_an_object = codes "json: cannot unmarshal array into Go value of type map[string]interface {}"

-- A body that is decoded into a map.
abbrev pub object_of : Body → Checked Row
object_of (unreadable e) = refused (body_refused e)
object_of empty = refused (body_refused (codes "Empty request body"))
object_of (malformed e) = refused (body_refused e)
object_of (array rows) = refused (body_refused not_an_object)
object_of (object row) = passed row

-- The loop over the keys of a body, which are the columns; it ends at the first that is unknown.
unfoldable pub columns_in : Table → Row → Checked (List Text)
unfolding find
columns_in t [] = passed []
columns_in t ((col, v) ∷ row) = do
  unless (not (is_some (find col t.columns))) (reply_error [] (err_invalid_column col))
  cols ← columns_in t row
  passed (col ∷ cols)

abbrev is_none : List Text → Bool
is_none [] = true
is_none (c ∷ cs) = false

-- The columns of a body, of which there must be one.
unfoldable pub some_columns : Text → Table → Row → Checked (List Text)
unfolding columns_in
some_columns detail t row = do
  cols ← columns_in t row
  unless (is_none cols) (body_refused detail)
  passed cols

-- `fmtVal`: an array or object is handed on as its text.
abbrev pub fmt_val : Value → Value
fmt_val (compound t) = string t
fmt_val v = v

abbrev pub value_or_null : Option Value → Value
value_or_null none = null
value_or_null (some v) = fmt_val v

-- The arguments for one row.
unfoldable pub row_args : List Text → Row → List Value
unfolding find
row_args [] row = []
row_args (col ∷ cols) row = value_or_null (find col row) ∷ row_args cols row

unfoldable pub non_empty : List Text → List Text
unfolding trim_space
non_empty [] = []
non_empty (p ∷ parts) =
    let part = trim_space p in
    let rest = non_empty parts in if is_empty part then rest else part ∷ rest

-- `parsePrefer`.
unfoldable pub parse_prefer : Text → List Text
unfolding non_empty split
parse_prefer header = if is_empty header then [] else non_empty (split b',' header)

-- A statement that is ready to be sent.
pub record Prepared : Type 0 where
  pub sql : Sql
  pub args : List Value

abbrev pub strings : List Text → List Value
strings ts = map string ts

abbrev pub ran_by : {S : Type 0} → (ℤ → Reply) → (Text → Reply) → S → Ran S → Reply × S
ran_by done broken s (failed e) = (broken e, s)
ran_by done broken s (ran n s') = (done n, s')

-- The end of each handler that writes: Exec, and the answer to its result.
abbrev pub execute :
    {S : Type 0} → Database S → (ℤ → Reply) → (Text → Reply) → S → Checked Prepared → Reply × S
execute db done broken s (refused r) = (r, s)
execute db done broken s (passed p) = ran_by done broken s (db.exec (render p.sql) p.args s)

abbrev pub database_error : Text → Reply
database_error e = reply_error [] (err_database e)
