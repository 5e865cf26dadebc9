-- ===== src/ControlPlane/Store.antt =====
-- crates/nixfleet-control-plane/src/db: the tables, each a list of rows under its primary key. SQLite
-- is a package that the program calls: a statement's text is what its operation here does, and whether
-- it succeeds is a parameter of the callers. A timestamp is stored as text that reads back as the same
-- instant and sorts as the instants do.
pub mod Rollouts
pub mod Records
pub mod DispatchQueue
pub mod Quarantines
pub mod ProbeFailures
pub mod EventLog
use nixfleet.Prelude.{List}
use nixfleet.Prelude.HashMap.{HashMap}
use Rollouts.{RolloutTable}
use Records.{RecordTable}
use DispatchQueue.{DispatchTable}
use Quarantines.{QuarantineTable}
use ProbeFailures.{ProbeFailureInsert}
use EventLog.{EventLogRow}

-- `Db`, with a field for the table of each of its accessors that the runtime's task uses.
pub record Db : Type 0 where
  pub rollouts : RolloutTable
  pub host_rollout_records : RecordTable
  pub dispatch_queue : DispatchTable
  pub quarantined_closures : QuarantineTable
  pub probe_failures : List ProbeFailureInsert
  pub event_log : List EventLogRow
