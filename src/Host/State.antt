-- ===== src/Host/State.antt =====
-- crates/nixfleet-state-machine/src/state.rs: the record of one host in one rollout.
use nixfleet.Prelude.{ℕ, String, Option, none, some, []}
use nixfleet.Prelude.HashMap.{HashMap}
use nixfleet.Proto.{Time, RolloutId, ClosureHash, OnHealthFailure}

pub data HostState : Type 0 where
  pending activating deferred soaking converged failed reverted : HostState

pub HostState-discrete : Discrete HostState
HostState-discrete = hlevel

pub data ProbeStatus : Type 0 where
  pass fail : ProbeStatus

pub data ProbeMode : Type 0 where
  enforce observe disabled : ProbeMode

pub record ProbeSubResult : Type 0 where
  pub control_id : String
  pub status : ProbeStatus
  pub framework : String
  pub article : Option String
  pub effective_mode : ProbeMode
  pub override_reason : Option String

pub record ProbeRecord : Type 0 where
  pub status : ProbeStatus
  pub mode : ProbeMode
  pub last_observed_at : Time
  pub last_pass_at : Option Time
  pub failure_reason : Option String

-- `HostRolloutState`; `last_event_seq` is a u64.
pub record HostRolloutState : Type 0 where
  pub rollout_id : RolloutId
  pub hostname : String
  pub channel : String
  pub state : HostState
  pub target_closure : ClosureHash
  pub current_closure_at_dispatch : Option ClosureHash
  pub current_closure : Option ClosureHash
  pub reverted_to : Option ClosureHash
  pub dispatched_at : Time
  pub dispatch_acked_at : Option Time
  pub activation_started_at : Option Time
  pub activation_completed_at : Option Time
  pub activation_failed_at : Option Time
  pub probe_observed_first_at : Option Time
  pub probe_failure_first_at : Option Time
  pub soak_due_at : Option Time
  pub converged_at : Option Time
  pub failed_at : Option Time
  pub policy_applied : Option OnHealthFailure
  pub reverted_at : Option Time
  pub probes : HashMap String ProbeRecord
  pub last_event_seq : ℕ

unfoldable pub new_pending :
    RolloutId → String → String → ClosureHash → Time → Time → HostRolloutState
new_pending rollout_id hostname channel target_closure dispatched_at soak_due_at = record {
  rollout_id = rollout_id;
  hostname = hostname;
  channel = channel;
  state = HostState.pending;
  target_closure = target_closure;
  current_closure_at_dispatch = none;
  current_closure = none;
  reverted_to = none;
  dispatched_at = dispatched_at;
  dispatch_acked_at = none;
  activation_started_at = none;
  activation_completed_at = none;
  activation_failed_at = none;
  probe_observed_first_at = none;
  probe_failure_first_at = none;
  soak_due_at = some soak_due_at;
  converged_at = none;
  failed_at = none;
  policy_applied = none;
  reverted_at = none;
  probes = [];
  last_event_seq = 0;
}
