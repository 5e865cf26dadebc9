-- ===== src/ControlPlane.antt =====
-- crates/nixfleet-control-plane/src: the task of the control plane (runtime/), which owns the tables of
-- db/ and answers the events and heartbeats of the hosts. Recovery and Waves are the decisions of
-- runtime/reducer.rs on one row, which the other modules run on the tables.
pub mod Json
pub mod Payload
pub mod Store
pub mod Io
pub mod Applier
pub mod Recovery
pub mod Waves
pub mod Runtime
pub mod History
mod Tests
