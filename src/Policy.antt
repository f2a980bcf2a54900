-- ===== src/Policy.antt =====
-- The permission policy: crates/xgeny-policy/src.
pub mod Request
pub mod Broker
pub mod Resolution
