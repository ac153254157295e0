-- ===== src/Router.antt =====
-- internal/api/router.go: the middleware that every request passes, and the list of tables.
pub mod Guard
mod Tests
use rest_trans.Prelude.{
  ℕ, Bool, true, false, ◌&&◌, not, Option, none, some, List, [], ◌∷◌, ◌++◌, Text, codes, text_eq,
  is_empty, join, if◌then◌else◌,
}
use rest_trans.Schema.{
  Table, SchemaStore, get_table, schema_names, tables_by_schema, is_method_allowed, keys,
}
use rest_trans.Config.{Config, is_table_hidden}
use rest_trans.Config
use rest_trans.ApiErrors.{ApiError}
use rest_trans.Response.{Headers, Reply, reply_error, set_header}

-- What a middleware does: `c.Next`, or an answer that ends the request.
pub data Verdict : Type 0 where
  pass : Verdict
  abort : Reply → Verdict

abbrev pub at_table : Text → Text → Text
at_table schema_name table = schema_name ++ (codes "." ++ table)

abbrev pub read_only : Text → Text → Text → Reply
read_only method schema_name table = reply_error [] (record {
  code = codes "PGRST201";
  message =
      codes "Method "
      ++ (method
          ++ (codes " is not allowed on view "
              ++ (at_table schema_name table ++ codes ": views are read-only")));
  details = [];
  hint = [];
  status = 405;
})

abbrev pub denied : Text → Text → Text → Reply
denied method schema_name table = reply_error [] (record {
  code = codes "PGRST102";
  message =
      codes "Method " ++ (method ++ (codes " is not allowed for " ++ at_table schema_name table));
  details = codes "Check @allow/@deny comment on table or config permissions";
  hint = [];
  status = 405;
})

abbrev pub denied_by_config : Text → Text → Text → Reply
denied_by_config method schema_name table = reply_error [] (record {
  code = codes "PGRST102";
  message =
      codes "Method "
      ++ (method
          ++ (codes " is not allowed for " ++ (at_table schema_name table ++ codes " (config)")));
  details = [];
  hint = [];
  status = 405;
})

abbrev pub by_config : Config → Text → Text → Text → Verdict
by_config cfg schema_name table method =
    if Config.is_method_allowed cfg table method
    then pass
    else abort (denied_by_config method schema_name table)

abbrev pub by_table : Config → Text → Text → Text → Option Table → Verdict
by_table cfg schema_name table method none = by_config cfg schema_name table method
by_table cfg schema_name table method (some t) =
    if t.is_view
      && (not (text_eq method (codes "GET"))
          && (not (text_eq method (codes "HEAD")) && not (text_eq method (codes "OPTIONS"))))
    then abort (read_only method schema_name table)
    else if not (is_method_allowed t method)
    then abort (denied method schema_name table)
    else by_config cfg schema_name table method

-- `methodGuard`. The parameters of a route that has none are empty.
unfoldable pub method_guard : SchemaStore → Config → Text → Text → Text → Verdict
unfolding get_table is_method_allowed Config.is_method_allowed text_eq
method_guard store cfg schema_name table method =
    if is_empty table
    then pass
    else by_table cfg schema_name table method (get_table store schema_name table)

abbrev pub is_offered : Config → Text → Text → Option Table → Bool
is_offered cfg table method none = Config.is_method_allowed cfg table method
is_offered cfg table method (some t) =
    if t.is_view && (not (text_eq method (codes "GET")) && not (text_eq method (codes "HEAD")))
    then false
    else is_method_allowed t method && Config.is_method_allowed cfg table method

unfoldable pub offered : Config → Text → Option Table → List Text → List Text
unfolding is_method_allowed Config.is_method_allowed text_eq
offered cfg table t [] = []
offered cfg table t (method ∷ methods) =
    let rest = offered cfg table t methods in
    if is_offered cfg table method t then method ∷ rest else rest

abbrev pub all_methods : List Text
all_methods =
    codes "GET" ∷ codes "HEAD" ∷ codes "POST" ∷ codes "PUT" ∷ codes "PATCH" ∷ codes "DELETE" ∷ []

-- `allowed`, in corsMiddleware.
unfoldable pub allowed_methods : SchemaStore → Config → Text → Text → List Text
unfolding get_table offered
allowed_methods store cfg schema_name table =
    codes "OPTIONS" ∷ offered cfg table (get_table store schema_name table) all_methods

-- `corsMiddleware`, which passes every request.
unfoldable pub cors_middleware : SchemaStore → Config → Text → Text → Headers → Headers
unfolding set_header allowed_methods join
cors_middleware store cfg schema_name table hs =
    let origin = set_header (codes "Access-Control-Allow-Origin") (codes "*") hs in
    let names =
      set_header (codes "Access-Control-Allow-Headers")
        (codes
          "Origin, Content-Type, Accept, Authorization, Prefer, Range, Accept-Profile, Content-Profile, Authorization-Transaction")
        origin in
    let exposed =
      set_header (codes "Access-Control-Expose-Headers")
        (codes "Content-Range, Range-Unit, X-Total-Count, Content-Profile") names in
    set_header (codes "Access-Control-Allow-Methods")
      (join (codes ", ") (allowed_methods store cfg schema_name table)) exposed

unfoldable pub shown : Config → List Text → List Text
unfolding Config.any_hides
shown cfg [] = []
shown cfg (name ∷ names) =
    let rest = shown cfg names in if is_table_hidden cfg name then rest else name ∷ rest

abbrev listed : Text → List Text → List (Text × List Text) → List (Text × List Text)
listed schema_name [] rest = rest
listed schema_name (n ∷ names) rest = (schema_name, n ∷ names) ∷ rest

unfoldable pub shown_schemas : SchemaStore → Config → List Text → List (Text × List Text)
unfolding tables_by_schema shown
shown_schemas store cfg [] = []
shown_schemas store cfg (s ∷ schemas) =
    listed s (shown cfg (keys (tables_by_schema store s))) (shown_schemas store cfg schemas)

-- The tables that `/info` lists.
unfoldable pub info_tables : SchemaStore → Config → List (Text × List Text)
unfolding shown_schemas
info_tables store cfg = shown_schemas store cfg (schema_names store)
