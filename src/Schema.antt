-- ===== src/Schema.antt =====
-- internal/schema/schema.go: the tables that introspection found, and the store that holds them.
-- Go's maps are association lists, in some order of their keys.
pub mod Lookup
pub mod Functions
pub mod Tests
use rest_trans.Prelude.{
  ℕ, ◌+◌, Bool, true, false, ◌&&◌, ◌||◌, not, Option, none, some, List, [], ◌∷◌, ◌++◌, map, Text,
  codes, text_eq, is_empty, leb, ◌==◌, if◌then◌else◌,
}
use rest_trans.Schema.Functions.{Function}

pub record Column : Type 0 where
  pub name : Text
  pub data_type : Text
  pub is_nullable : Bool
  pub is_pk : Bool
  pub is_unique : Bool
  pub default_value : Text
  pub ordinal_pos : ℕ
  pub character_max_len : ℕ

pub record ForeignKey : Type 0 where
  pub constraint_name : Text
  pub column_name : Text
  pub ref_table : Text
  pub ref_column : Text
  pub on_delete : Text
  pub on_update : Text

pub record UniqueConstraint : Type 0 where
  pub constraint_name : Text
  pub columns : List Text

-- `allowed_methods` is `none` where the source has a nil slice.
pub record Table : Type 0 where
  pub name : Text
  pub schema_name : Text
  pub columns : List (Text × Column)
  pub column_order : List Text
  pub pk : Text
  pub is_view : Bool
  pub foreign_keys : List ForeignKey
  pub unique_constraints : List UniqueConstraint
  pub allowed_methods : Option (List Text)
  pub deny_methods : List Text
  pub fts_language : Text

module _ {ℓ} {V : Type ℓ} where
  -- A read of a map.
  unfoldable pub find : Text → List (Text × V) → Option V
  unfolding text_eq
  find k [] = none
  find k ((j, v) ∷ m) = if text_eq j k then some v else find k m

  -- A write to a map.
  unfoldable pub store : Text → V → List (Text × V) → List (Text × V)
  unfolding text_eq
  store k v [] = (k, v) ∷ []
  store k v ((j, w) ∷ m) = if text_eq j k then (j, v) ∷ m else (j, w) ∷ store k v m

  abbrev pub keys : List (Text × V) → List Text
  keys [] = []
  keys ((k, v) ∷ m) = k ∷ keys m

abbrev pub is_some {ℓ} : {A : Type ℓ} → Option A → Bool
is_some none = false
is_some (some a) = true

abbrev pub qualify : Text → Text → Text
qualify schema_name name =
    if not (is_empty schema_name) && not (text_eq schema_name (codes "public"))
    then schema_name ++ codes "." ++ name
    else name

-- `Table.QualifiedName`.
unfoldable pub qualified_name : Table → Text
unfolding text_eq
qualified_name t = qualify t.schema_name t.name

abbrev add_column : Option Column → List Column → List Column
add_column none cols = cols
add_column (some c) cols = c ∷ cols

unfoldable pub columns_of : List (Text × Column) → List Text → List Column
unfolding find
columns_of columns [] = []
columns_of columns (name ∷ names) = add_column (find name columns) (columns_of columns names)

-- `Table.OrderedColumns`.
unfoldable pub ordered_columns : Table → List Column
unfolding columns_of
ordered_columns t = columns_of t.columns t.column_order

-- `strings.EqualFold` of a word with a method name, which is ASCII.
abbrev fold : ℕ → ℕ
fold c =
    if leb b'A' c && leb c b'Z'
    then c + 32
    else if c == 0x17F
    then b's'
    else if c == 0x212A
    then b'k'
    else c

unfoldable pub equal_fold : Text → Text → Bool
unfolding text_eq
equal_fold s t = text_eq (map fold s) (map fold t)

abbrev pub any_folds : Text → List Text → Bool
any_folds method [] = false
any_folds method (m ∷ ms) = equal_fold m method || any_folds method ms

abbrev listed : Text → Option (List Text) → Bool
listed method none = true
listed method (some ms) = any_folds method ms

-- `Table.IsMethodAllowed`: the denials come first.
unfoldable pub is_method_allowed : Table → Text → Bool
unfolding equal_fold
is_method_allowed t method =
    if any_folds method t.deny_methods then false else listed method t.allowed_methods

-- The mutex makes each method of `SchemaStore` one step.
pub record SchemaStore : Type 0 where
  pub schemas : List (Text × List (Text × Table))
  pub functions : List (Text × List (Text × Function))
  pub default_schema : Text

abbrev pub new_store : Text → SchemaStore
new_store d = record { schemas = []; functions = []; default_schema = d }

abbrev pub or_empty {ℓ} : {V : Type ℓ} → Option (List (Text × V)) → List (Text × V)
or_empty none = []
or_empty (some ts) = ts

unfoldable pub add_table : SchemaStore → Text → Table → SchemaStore
unfolding find store
add_table ss schema_name table =
    let t = record table { schema_name = schema_name } in
    record ss {
      schemas =
          store schema_name (store t.name t (or_empty (find schema_name ss.schemas))) ss.schemas;
    }

abbrev pub resolve : SchemaStore → Text → Text
resolve ss schema_name = if is_empty schema_name then ss.default_schema else schema_name

unfoldable pub get_table : SchemaStore → Text → Text → Option Table
unfolding find
get_table ss schema_name table_name =
    find table_name (or_empty (find (resolve ss schema_name) ss.schemas))

unfoldable pub has_table : SchemaStore → Text → Text → Bool
unfolding get_table
has_table ss schema_name table_name = is_some (get_table ss schema_name table_name)

-- `TablesBySchema`.
unfoldable pub tables_by_schema : SchemaStore → Text → List (Text × Table)
unfolding find
tables_by_schema ss schema_name = or_empty (find (resolve ss schema_name) ss.schemas)

-- `SchemaNames`.
abbrev pub schema_names : SchemaStore → List Text
schema_names ss = keys ss.schemas

abbrev pub replace_tables : SchemaStore → List (Text × List (Text × Table)) → SchemaStore
replace_tables ss schemas = record ss { schemas = schemas }

-- The loops of AllTables and AllFunctions: of two schemas' tables of one name the later one stays.
unfoldable pub merge_all : {V : Type 0} → List (Text × V) → List (Text × V) → List (Text × V)
unfolding store
merge_all [] result = result
merge_all ((name, v) ∷ m) result = merge_all m (store name v result)

unfoldable pub merge_schemas :
    {V : Type 0} → List (Text × List (Text × V)) → List (Text × V) → List (Text × V)
unfolding merge_all
merge_schemas [] result = result
merge_schemas ((s, m) ∷ schemas) result = merge_schemas schemas (merge_all m result)

abbrev pub all_tables : SchemaStore → List (Text × Table)
all_tables ss = merge_schemas ss.schemas []

abbrev pub all_functions : SchemaStore → List (Text × Function)
all_functions ss = merge_schemas ss.functions []

unfoldable pub add_function : SchemaStore → Text → Function → SchemaStore
unfolding find store
add_function ss schema_name fn = record ss {
  functions =
      store schema_name (store fn.name fn (or_empty (find schema_name ss.functions))) ss.functions;
}

unfoldable pub get_function : SchemaStore → Text → Text → Option Function
unfolding find
get_function ss schema_name func_name =
    find func_name (or_empty (find (resolve ss schema_name) ss.functions))

-- `FunctionsBySchema`.
unfoldable pub functions_by_schema : SchemaStore → Text → List (Text × Function)
unfolding find
functions_by_schema ss schema_name = or_empty (find (resolve ss schema_name) ss.functions)

abbrev pub replace_functions : SchemaStore → List (Text × List (Text × Function)) → SchemaStore
replace_functions ss functions = record ss { functions = functions }
