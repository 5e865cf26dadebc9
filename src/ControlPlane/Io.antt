-- ===== src/ControlPlane/Io.antt =====
-- What the control plane's task asks of the packages outside the program.
use nixfleet.Prelude.{ℕ, String, Bool}
use nixfleet.Proto.{Time, RolloutId, ChannelId, HostId, ClosureHash}
use nixfleet.Rollout.State.{RolloutState}
use nixfleet.ControlPlane.Store.EventLog.{EventLogKind}

-- The statements that the runtime's task has SQLite run.
pub data Statement : Type 0 where
  list_active : Statement
  record_rollout_opened : RolloutId → Statement
  record_rollout_transition : RolloutId → RolloutState → Statement
  set_current_wave : RolloutId → ℕ → Statement
  rollout_state : RolloutId → Statement
  upsert_record : RolloutId → HostId → Statement
  load_record : RolloutId → HostId → Statement
  all_for_rollout : RolloutId → Statement
  active_for_host : HostId → Statement
  upsert_dispatch : HostId → RolloutId → Statement
  insert_quarantine : ChannelId → ClosureHash → Statement
  insert_probe_failures : RolloutId → HostId → Statement
  outstanding_failures : Statement
  append_event : EventLogKind → Statement

-- What the packages outside the program do: how chrono writes an instant, and which statements
-- succeed.
pub record Io : Type 0 where
  pub to_rfc3339 : Time → String
  pub succeeds : Statement → Bool
