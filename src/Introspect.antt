-- ===== src/Introspect.antt =====
-- internal/schema/introspect.go and functions.go: the tables and functions that are built from the
-- rows of PostgreSQL's catalogue.
pub mod Comment
pub mod Watcher
pub mod Sound
mod Tests
use rest_trans.Prelude.{
  ℕ, ◌+◌, Bool, true, false, not, Option, none, some, List, [], ◌∷◌, ◌++◌, Text, codes, text_eq,
  is_empty, split, if◌then◌else◌,
}
use rest_trans.Schema.{Column, ForeignKey, UniqueConstraint, Table, find, store, is_some}
use rest_trans.Schema.Functions.{Function, parse_func_args}
use rest_trans.Introspect.Comment.{Permissions, parse_comment}

-- A query: it fails, or gives rows, of which one that Scan fails on is `none`, and perhaps an error
-- at their end.
pub data Fetched (R : Type 0) : Type 0 where
  query_failed : Fetched R
  fetched : List (Option R) → Bool → Fetched R

pub record ColumnRow : Type 0 where
  pub table_name : Text
  pub col_name : Text
  pub data_type : Text
  pub is_nullable : Text
  pub default_val : Text
  pub ordinal_pos : ℕ
  pub char_max_len : ℕ

pub record ForeignKeyRow : Type 0 where
  pub table_name : Text
  pub foreign_key : ForeignKey

pub record UniqueRow : Type 0 where
  pub constraint_name : Text
  pub table_name : Text
  pub columns : Text

pub record FunctionRow : Type 0 where
  pub func_name : Text
  pub ret_type : Text
  pub lang : Text
  pub arg_types : Text
  pub arg_names : Text

-- What the queries give for a schema. Nothing is assumed of it.
pub record Catalogue : Type 0 where
  pub columns : Text → Fetched ColumnRow
  pub view_columns : Text → Fetched ColumnRow
  pub primary_keys : Text → Fetched (Text × Text)
  pub foreign_keys : Text → Fetched ForeignKeyRow
  pub unique_constraints : Text → Fetched UniqueRow
  pub comments : Text → Fetched (Text × Text)
  pub functions : Text → Fetched FunctionRow

abbrev pub Tables : Type 0
Tables = List (Text × Table)

-- The loop over the rows; `none` is an error.
unfoldable pub each_row : {R T : Type 0} → (R → T → T) → List (Option R) → T → Option T
each_row step [] t = some t
each_row step (none ∷ rows) t = none
each_row step (some r ∷ rows) t = each_row step rows (step r t)

abbrev pub unless_failed : {T : Type 0} → Bool → Option T → Option T
unless_failed true t = none
unless_failed false t = t

abbrev pub all_rows : {R T : Type 0} → (R → T → T) → Fetched R → T → Option T
all_rows step query_failed t = none
all_rows step (fetched rows at_end) t = unless_failed at_end (each_row step rows t)

abbrev pub new_table : Text → Bool → Table
new_table name is_view = record {
  name = name;
  schema_name = [];
  columns = [];
  column_order = [];
  pk = [];
  is_view = is_view;
  foreign_keys = [];
  unique_constraints = [];
  allowed_methods = none;
  deny_methods = [];
  fts_language = [];
}

abbrev pub column_of : ColumnRow → Column
column_of r = record {
  name = r.col_name;
  data_type = r.data_type;
  is_nullable = text_eq r.is_nullable (codes "YES");
  is_pk = false;
  is_unique = false;
  default_value = r.default_val;
  ordinal_pos = r.ordinal_pos;
  character_max_len = r.char_max_len;
}

abbrev pub with_column : ColumnRow → Table → Table
with_column r t = record t {
  columns = store r.col_name (column_of r) t.columns;
  column_order = t.column_order ++ r.col_name ∷ [];
}

abbrev pub table_or_new : Text → Bool → Option Table → Table
table_or_new name is_view none = new_table name is_view
table_or_new name is_view (some t) = t

-- The body of the loop of introspectTables.
unfoldable pub add_table_column : ColumnRow → Tables → Tables
unfolding find store text_eq
add_table_column r tables =
    store r.table_name (with_column r (table_or_new r.table_name false (find r.table_name tables)))
      tables

-- That of introspectViews.
unfoldable pub add_view_column : ColumnRow → Tables → Tables
unfolding find store text_eq
add_view_column r tables =
    let t = table_or_new r.table_name true (find r.table_name tables) in
    store r.table_name (with_column r (record t { is_view = true })) tables

abbrev pub update_found : Text → (Table → Table) → Option Table → Tables → Tables
update_found name change none tables = tables
update_found name change (some t) tables = store name (change t) tables

-- A change of a table that is there.
unfoldable pub update_table : Text → (Table → Table) → Tables → Tables
unfolding find store
update_table name change tables = update_found name change (find name tables) tables

abbrev pub first_key : Text → Text → Text
first_key pk col = if is_empty pk then col else pk

abbrev pub mark_key : Text → Table → Option Column → Table
mark_key col t none = t
mark_key col t (some c) = record t {
  columns = store col (record c { is_pk = true }) t.columns;
  pk = first_key t.pk col;
}

-- introspectPrimaryKeys.
unfoldable pub add_primary_key : Text × Text → Tables → Tables
unfolding update_table
add_primary_key (table, col) tables =
    update_table table (λ t. mark_key col t (find col t.columns)) tables

abbrev pub kept_column : Text → List (Text × Column) → Option Column → List (Text × Column)
kept_column col columns none = columns
kept_column col columns (some c) = store col c columns

-- introspectForeignKeys, which also writes the column back as it is.
unfoldable pub add_foreign_key : ForeignKeyRow → Tables → Tables
unfolding update_table
add_foreign_key r tables =
    update_table r.table_name
      (λ t. record t {
        foreign_keys = t.foreign_keys ++ r.foreign_key ∷ [];
        columns =
            kept_column r.foreign_key.column_name t.columns
              (find r.foreign_key.column_name t.columns);
      })
      tables

abbrev pub mark_unique : Text → List (Text × Column) → Option Column → List (Text × Column)
mark_unique col columns none = columns
mark_unique col columns (some c) = store col (record c { is_unique = true }) columns

abbrev pub unique_columns : List Text → List (Text × Column) → List (Text × Column)
unique_columns (col ∷ []) columns = mark_unique col columns (find col columns)
unique_columns _ columns = columns

-- introspectUniqueConstraints.
unfoldable pub add_unique : UniqueRow → Tables → Tables
unfolding update_table split
add_unique r tables =
    let names = split b',' r.columns in
    update_table r.table_name
      (λ t. record t {
        columns = unique_columns names t.columns;
        unique_constraints =
            t.unique_constraints
            ++ record { constraint_name = r.constraint_name; columns = names } ∷ [];
      })
      tables

abbrev or_methods : List Text → Option (List Text) → Option (List Text)
or_methods [] old = old
or_methods (m ∷ ms) old = some (m ∷ ms)

abbrev or_denied : List Text → List Text → List Text
or_denied [] old = old
or_denied (m ∷ ms) old = m ∷ ms

abbrev pub with_permissions : Permissions → Table → Table
with_permissions p t = record t {
  allowed_methods = or_methods p.allowed t.allowed_methods;
  deny_methods = or_denied p.denied t.deny_methods;
  fts_language = if is_empty p.fts_language then t.fts_language else p.fts_language;
}

-- introspectPermissions: an error ends it or passes a row over, and is no error of Introspect.
unfoldable pub add_permissions : List (Option (Text × Text)) → Tables → Tables
unfolding update_table parse_comment
add_permissions [] tables = tables
add_permissions (none ∷ rows) tables = add_permissions rows tables
add_permissions (some (table, comment) ∷ rows) tables =
    add_permissions rows (update_table table (with_permissions (parse_comment comment)) tables)

abbrev pub permissions_by : Fetched (Text × Text) → Tables → Tables
permissions_by query_failed tables = tables
permissions_by (fetched rows at_end) tables = add_permissions rows tables

infixl 5 ◌>>=◌
abbrev pub ◌>>=◌ : {A B : Type 0} → Option A → (A → Option B) → Option B
none >>= k = none
some a >>= k = k a

-- `Introspect`.
unfoldable pub introspect : Catalogue → Text → Option Tables
unfolding each_row add_table_column add_view_column add_primary_key add_foreign_key add_unique
    add_permissions
introspect c s = do
  tables ← all_rows add_table_column (c.columns s) []
  views ← all_rows add_view_column (c.view_columns s) tables
  keys ← all_rows add_primary_key (c.primary_keys s) views
  references ← all_rows add_foreign_key (c.foreign_keys s) keys
  uniques ← all_rows add_unique (c.unique_constraints s) references
  some (permissions_by (c.comments s) uniques)

abbrev function_of : Text → FunctionRow → Function
function_of schema_name r = record {
  name = r.func_name;
  schema_name = schema_name;
  return_type = r.ret_type;
  arguments = parse_func_args r.arg_types r.arg_names;
  language = r.lang;
}

-- The body of the loop of IntrospectFunctions: an overload is stored under another key.
unfoldable pub add_function_row :
    Text → FunctionRow → List (Text × Function) → List (Text × Function)
unfolding find store parse_func_args
add_function_row schema_name r functions =
    let key =
      if is_some (find r.func_name functions)
      then r.func_name ++ (codes "_" ++ r.ret_type)
      else r.func_name in
    store key (function_of schema_name r) functions

-- `IntrospectFunctions`.
unfoldable pub introspect_functions : Catalogue → Text → Option (List (Text × Function))
unfolding each_row add_function_row
introspect_functions c s = all_rows (add_function_row s) (c.functions s) []
