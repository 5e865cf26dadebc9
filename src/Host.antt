-- ===== src/Host.antt =====
-- crates/nixfleet-state-machine: the per-host rollout reducer.
pub mod State
pub mod Event
pub mod Effect
pub mod Error
pub mod Transitions
pub mod Rehydration
pub mod Wire
pub mod Steps
pub mod Mirror
pub mod Run
pub mod Diagram
pub mod Convergence
pub mod Invariant
pub mod Rollback
mod Tests
