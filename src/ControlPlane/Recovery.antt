-- ===== src/ControlPlane/Recovery.antt =====
-- The cursor of a replay, and the numbers and the time of the events that a heartbeat makes up for:
-- crates/nixfleet-control-plane/src/runtime/reducer.rs, on one row of the host's records.
use nixfleet.Prelude.{
  ℕ, ◌+◌, ◌%◌, ◌^◌, Option, none, some, if◌then◌else◌, ltb, option_beq, string_eq,
}
use nixfleet.Proto.{Time, ClosureHash}
use nixfleet.Host.State.{HostRolloutState}

-- The row that was loaded, if any, and the closure that the agent reports, if any.
unfoldable pub compute_replay_from : Option HostRolloutState → Option ClosureHash → Option ℕ
compute_replay_from row none = none
compute_replay_from none (some agent_closure) = none
compute_replay_from (some row) (some agent_closure) =
    if option_beq row.current_closure (some agent_closure) then none else some row.last_event_seq

-- `record.last_event_seq + k` on u64
abbrev pub seq_after : HostRolloutState → ℕ → ℕ
seq_after row k = (row.last_event_seq + k) % 2 ^ 64

-- The time that the last event of the chain carries.
abbrev pub synth_converged_at : Option Time → Time → Time
synth_converged_at none at = at
synth_converged_at (some soak_due) at = if ltb at soak_due then soak_due else at
