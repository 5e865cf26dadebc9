-- ===== src/Agent.antt =====
-- crates/nixfleet-agent/src/runtime/reducer.rs: the agent's reducer task.
pub mod Snapshot
pub mod Reducer
pub mod Numbering
pub mod Gates
mod Tests
