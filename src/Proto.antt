-- ===== src/Proto.antt =====
-- crates/nixfleet-proto: the types that the agent and the control plane share.
-- A `DateTime<Utc>` is the number of nanoseconds since the earliest instant that chrono can
-- represent, so every timestamp is a natural number and the order is that of the numbers.
mod Identity
mod Policy
mod Fleet
mod Manifest
pub mod AgentEvent
pub mod Snapshot
unfoldable pub use Identity.*
pub use Policy.*
unfoldable pub use Fleet.*
pub use Manifest.*
mod Tests
