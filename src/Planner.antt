-- ===== src/Planner.antt =====
-- crates/nixfleet-reconciler: the planner, and the gates that a dispatch passes.
pub mod Types
pub mod Gates
pub mod Plan
pub mod Justified
pub mod Budget
pub mod Coverage
mod Tests
