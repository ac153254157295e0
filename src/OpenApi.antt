-- ===== src/OpenApi.antt =====
-- internal/openapi/openapi.go: the document that describes the tables and functions.
pub mod Types
pub mod Operations
pub mod Guard
mod Tests
use rest_trans.Prelude.{
  ℕ, Bool, true, false, ◌&&◌, not, Option, some, List, [], ◌∷◌, ◌++◌, Text, codes, if◌then◌else◌,
}
use rest_trans.Schema.{
  Table, SchemaStore, store, is_method_allowed, schema_names, tables_by_schema, functions_by_schema,
}
use rest_trans.Schema.Functions.{Function}
use rest_trans.Config.{Config, is_table_hidden, is_rpc_enabled}
use rest_trans.Config
use rest_trans.OpenApi.Types.{Operation, PathItem, TableSchema, Spec}
use rest_trans.OpenApi.Operations.{
  build_get_op, build_head_op, build_post_op, build_put_op, build_patch_op, build_delete_op,
  build_options_op, build_rpc_op, build_schema,
}

-- A method that the table and the configuration allow.
abbrev pub is_open : Config → Text → Table → Text → Bool
is_open cfg name t method = is_method_allowed t method && Config.is_method_allowed cfg name method

-- A write to the map of the path, under a test.
abbrev pub put_if : Bool → Text → Operation → PathItem → PathItem
put_if true key op item = store key op item
put_if false key op item = item

-- The operations of a table, in the order in which Generate adds them.
unfoldable pub path_item : Config → Text → Text → Table → PathItem
path_item cfg schema_name name t =
    let get =
      put_if (is_open cfg name t (codes "GET")) (codes "get") (build_get_op t schema_name) [] in
    let head =
      put_if (is_open cfg name t (codes "HEAD")) (codes "head") (build_head_op t schema_name) get in
    let post =
      put_if (not t.is_view && is_open cfg name t (codes "POST")) (codes "post")
        (build_post_op t schema_name) head in
    let put =
      put_if (not t.is_view && is_open cfg name t (codes "PUT")) (codes "put")
        (build_put_op t schema_name) post in
    let patch =
      put_if (not t.is_view && is_open cfg name t (codes "PATCH")) (codes "patch")
        (build_patch_op t schema_name) put in
    let delete =
      put_if (not t.is_view && is_open cfg name t (codes "DELETE")) (codes "delete")
        (build_delete_op t schema_name) patch in
    store (codes "options") (build_options_op t schema_name) delete

abbrev table_path : Text → Text → Text
table_path schema_name name = codes "/" ++ (schema_name ++ (codes "/" ++ name))

abbrev rpc_path : Text → Text → Text
rpc_path schema_name name = codes "/" ++ (schema_name ++ (codes "/rpc/" ++ name))

-- The loop over the tables of a schema. A path has an operation always, that of OPTIONS.
unfoldable pub add_tables : Config → Text → List (Text × Table) → Spec → Spec
unfolding path_item build_schema store is_method_allowed Config.is_method_allowed Config.any_hides
add_tables cfg s [] spec = spec
add_tables cfg s ((name, t) ∷ tables) spec =
    let shown = record spec {
      paths = store (table_path s name) (path_item cfg s name t) spec.paths;
      schemas = store name (build_schema t) spec.schemas;
    } in
    add_tables cfg s tables (if is_table_hidden cfg name then spec else shown)

-- The loop over the functions of a schema.
unfoldable pub add_functions : Config → Text → List (Text × Function) → Spec → Spec
unfolding build_rpc_op store is_rpc_enabled
add_functions cfg s [] spec = spec
add_functions cfg s ((name, fn) ∷ functions) spec =
    let shown = record spec {
      paths = store (rpc_path s name) ((codes "post", build_rpc_op fn s) ∷ []) spec.paths;
    } in
    add_functions cfg s functions (if is_rpc_enabled cfg name then shown else spec)

unfoldable pub add_schemas : SchemaStore → Config → List Text → Spec → Spec
unfolding add_tables add_functions tables_by_schema functions_by_schema
add_schemas ss cfg [] spec = spec
add_schemas ss cfg (s ∷ schemas) spec =
    add_schemas ss cfg schemas (
      add_functions cfg s (functions_by_schema ss s)
        (add_tables cfg s (tables_by_schema ss s) spec))

-- `Generate`.
unfoldable pub generate : SchemaStore → Config → Spec
unfolding add_schemas
generate ss cfg = add_schemas ss cfg (schema_names ss) (record {
  openapi = codes "3.0.3";
  title = codes "rest-trans";
  description = codes "Auto-generated REST API from PostgreSQL schema";
  version = codes "1.0.0";
  servers = (codes "/", codes "Default server") ∷ [];
  paths = [];
  schemas = [];
})
