-- ===== src/Api.antt =====
-- internal/api/handler.go: how the handlers call the parser and the builder.
pub mod Patch
pub mod Types
pub mod Reads
pub mod Writes
pub mod Post
pub mod Put
pub mod Routes
pub mod Tests
use rest_trans.Prelude.{ℕ, List, [], ◌∷◌, Text, Result, none, some}
use rest_trans.Schema.{Table, find, is_some}
use rest_trans.Query.Params.{Params}
use rest_trans.Query.Parse.{Pairs, parse}
use rest_trans.Query.Builder.Where.{Builder, Cond, build_where}
use rest_trans.Query.Builder.Select.{Statement, build_count}

-- `parseParams`: the query string against the columns of the table. `visit` is as in `parse`.
unfoldable pub parse_params : (Pairs → Pairs) → Text → Table → Result Params
unfolding parse find
parse_params visit raw table = parse visit raw (λ c. is_some (find c table.columns))

-- `executeCount`, but for the query itself. Its builder has no schema.
unfoldable pub count_statement : Table → Params → Result Statement
unfolding build_count
count_statement table params =
    build_count (record { table = some table; params = params; schema_name = []; store = none })

-- `buildWhereFromParams`, which a PATCH calls: a builder with no table.
unfoldable pub build_where_from_params : Params → ℕ → Result Cond
unfolding build_where
build_where_from_params params idx =
    build_where (record { table = none; params = params; schema_name = []; store = none }) idx
