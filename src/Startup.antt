-- ===== src/Startup.antt =====
-- cmd/rest-trans/main.go: what main does before it serves: the retries of the database and the
-- first reading of the schemas.
mod Tests
pub mod Retries
use rest_trans.Prelude.{
  ℕ, zero, suc, ◌+◌, Bool, true, false, ◌&&◌, Option, none, some, List, [], ◌∷◌, Text, codes,
  trim_space, ltb, if◌then◌else◌,
}
use rest_trans.Schema.{Table, SchemaStore, new_store, add_table, add_function}
use rest_trans.Schema.Functions.{Function}
use rest_trans.Introspect.{Catalogue, introspect, introspect_functions}

-- How the retries end, with the number of pings and of pauses that they took.
pub record Retried : Type 0 where
  pub reached : Bool
  pub pings : ℕ
  pub pauses : ℕ

-- The loop of retryPingDB, with `left` attempts after `i` that failed; `ping i` says whether the
-- attempt with that number succeeds.
unfoldable pub retry_from : (ℕ → Bool) → Bool → ℕ → ℕ → ℕ → Retried
retry_from ping paused zero i pauses = record { reached = false; pings = i; pauses = pauses }
retry_from ping paused (suc left) i pauses =
    let again =
      retry_from ping paused left (i + 1) (if paused && ltb 0 left then pauses + 1 else pauses) in
    if ping i then record { reached = true; pings = i + 1; pauses = pauses } else again

-- `retryPingDB`. `paused` says that the delay is above 0.
unfoldable pub retry_ping_db : (ℕ → Bool) → ℕ → Bool → Retried
unfolding retry_from
retry_ping_db ping attempts paused = retry_from ping paused attempts 0 0

unfoldable pub add_tables : Text → List (Text × Table) → SchemaStore → SchemaStore
unfolding add_table
add_tables s [] ss = ss
add_tables s ((name, t) ∷ tables) ss = add_tables s tables (add_table ss s t)

unfoldable pub add_functions : Text → List (Text × Function) → SchemaStore → SchemaStore
unfolding add_function
add_functions s [] ss = ss
add_functions s ((name, fn) ∷ functions) ss = add_functions s functions (add_function ss s fn)

abbrev functions_if : Text → Option (List (Text × Function)) → SchemaStore → SchemaStore
functions_if s none ss = ss
functions_if s (some functions) ss = add_functions s functions ss

-- The loop over the schemas: main exits where the tables of one cannot be read (`none`), and goes on
-- without its functions where those cannot.
unfoldable pub load_schemas : Catalogue → List Text → SchemaStore → Option SchemaStore
unfolding introspect introspect_functions add_tables add_functions trim_space
load_schemas c [] ss = some ss
load_schemas c (text ∷ schemas) ss =
    let s = trim_space text in
    elim (introspect c s) [
      | none ↦ none
      | some tables ↦
          load_schemas c schemas
            (functions_if s (introspect_functions c s) (add_tables s tables ss))
    ]

abbrev default_schema_of : List Text → Text
default_schema_of [] = codes "public"
default_schema_of (s ∷ schemas) = trim_space s

-- The store that main starts with.
unfoldable pub first_store : Catalogue → List Text → Option SchemaStore
unfolding load_schemas trim_space
first_store c schemas = load_schemas c schemas (new_store (default_schema_of schemas))
