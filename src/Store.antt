-- ===== src/Store.antt =====
-- The local store of the journal: crates/xgeny-local-store/src/lib.rs and memory.rs.
pub mod Errors
pub mod Index
pub mod Bundles
pub mod Journal
