-- ===== src/Store.antt =====
-- The storage layer, crates/precall-store.
pub mod Sql
pub mod Crypto
pub mod Ukg
pub mod Objects
pub mod Semantic
