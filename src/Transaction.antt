-- ===== src/Transaction.antt =====
-- internal/transaction: changes that clients stage and then commit or roll back together.
pub mod Types
pub mod Manager
pub mod Commit
pub mod Statements
pub mod Undo
pub mod Staging
pub mod Handler
pub mod Invariant
mod Tests
