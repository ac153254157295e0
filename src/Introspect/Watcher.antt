-- ===== src/Introspect/Watcher.antt =====
-- internal/schema/watcher.go: the refresh that a hot reload makes at each tick.
pub mod Reload
use rest_trans.Prelude.{
  ℕ, Bool, true, false, ◌&&◌, not, Option, none, some, List, [], ◌∷◌, ◌++◌, Text, trim, ◌==◌,
  trim_func, if◌then◌else◌,
}
use rest_trans.Schema.{
  Table, SchemaStore, find, store, is_some, all_tables, replace_tables, replace_functions,
}
use rest_trans.Schema.Functions.{Function}
use rest_trans.Introspect.{Catalogue, Tables, introspect, introspect_functions}

-- `trimSpace` of watcher.go: spaces only.
unfoldable pub trim_spaces : Text → Text
unfolding trim_func
trim_spaces s = trim_func (λ c. c == 32) s

-- The two maps that refresh fills.
pub record Fresh : Type 0 where
  pub schemas : List (Text × Tables)
  pub functions : List (Text × List (Text × Function))

abbrev with_functions : Text → Option (List (Text × Function)) → Fresh → Fresh
with_functions s none f = f
with_functions s (some functions) f = record f { functions = store s functions f.functions }

abbrev with_tables : Text → Option Tables → Option (List (Text × Function)) → Fresh → Fresh
with_tables s none functions f = f
with_tables s (some tables) functions f =
    with_functions s functions (record f { schemas = store s tables f.schemas })

-- The loop over the watched schemas. One whose tables cannot be read is passed over, and one whose
-- functions cannot be read keeps its tables.
unfoldable pub read_schemas : Catalogue → List Text → Fresh → Fresh
unfolding introspect introspect_functions store trim_spaces
read_schemas c [] f = f
read_schemas c (text ∷ schemas) f =
    let s = trim_spaces text in
    read_schemas c schemas (with_tables s (introspect c s) (introspect_functions c s) f)

-- The names of tables that are not among those of any schema before.
unfoldable pub unknown_tables : Text → List (Text × Table) → Tables → List (Text × Text)
unfolding find
unknown_tables s old [] = []
unknown_tables s old ((name, t) ∷ tables) =
    let rest = unknown_tables s old tables in
    if is_some (find name old) then rest else (s, name) ∷ rest

-- The triggers that detectChanges creates; what else it does is logging.
unfoldable pub new_tables : List (Text × Table) → List (Text × Tables) → List (Text × Text)
unfolding unknown_tables
new_tables old [] = []
new_tables old ((s, tables) ∷ schemas) = unknown_tables s old tables ++ new_tables old schemas

abbrev nothing_read : Fresh
nothing_read = record { schemas = []; functions = [] }

-- `Watcher.refresh`: the store that it leaves, and the tables that it creates triggers on.
unfoldable pub refresh :
    Catalogue → List Text → Bool → SchemaStore → SchemaStore × List (Text × Text)
unfolding read_schemas new_tables
refresh c schemas auto_notify store =
    let f = read_schemas c schemas nothing_read in
    (
      replace_functions (replace_tables store f.schemas) f.functions,
      if auto_notify then new_tables (all_tables store) f.schemas else [],
    )
