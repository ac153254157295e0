-- ===== src/Query.antt =====
-- internal/query: the URL query language (params.go) and the SQL that it becomes (builder.go).
pub mod Operator
pub mod Params
pub mod Scan
pub mod InValues
pub mod Filters
pub mod Logical
pub mod Select
pub mod Order
pub mod Parse
pub mod Builder
mod Tests
