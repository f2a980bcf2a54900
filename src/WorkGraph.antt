-- ===== src/WorkGraph.antt =====
-- crates/xgeny-workgraph: the Run journal's reducer and the frontier that it derives.
pub mod Status
pub mod Errors
pub mod Event
pub mod State
pub mod Digest
pub mod Planning
pub mod Steps
pub mod ModelCalls
pub mod Effects
pub mod Bindings
pub mod Completion
pub mod Output
pub mod Frontier
pub mod Kahn
pub mod Plan
pub mod Intent
pub mod Reducer
