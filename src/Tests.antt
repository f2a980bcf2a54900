-- ===== src/Tests.antt =====
-- Concrete runs of the model, and the theorems at these inputs.
mod Outputs
mod Sample
mod Witnesses
mod Planning
mod Placement
mod Policies
mod Routes
mod Stores
