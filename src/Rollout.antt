-- ===== src/Rollout.antt =====
-- crates/nixfleet-state-machine/src/rollout: the reducer of a channel's rollout.
pub mod State
pub mod Event
pub mod Transitions
pub mod Diagram
pub mod Waves
mod Tests
