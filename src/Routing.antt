-- ===== src/Routing.antt =====
-- Capability placement: crates/xgeny-runtime/src/registry.rs and router.rs.
pub mod Registry
pub mod Float
pub mod Request
pub mod Candidate
pub mod Ranking
pub mod Router
