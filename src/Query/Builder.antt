-- ===== src/Query/Builder.antt =====
-- internal/query/builder.go: SQL with placeholders, and the arguments for them. A method's pointer
-- `argIdx` is the number that it is given and the number that it returns.
pub mod Where
pub mod Select
pub mod Write
mod Tests
