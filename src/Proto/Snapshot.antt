-- ===== src/Proto/Snapshot.antt =====
-- crates/nixfleet-proto/src/agent_wire.rs and host_rollout_state.rs: a record on the wire.
use nixfleet.Prelude.{ℕ, String, Option}
use nixfleet.Proto.Identity.{Time, RolloutId}

pub data WireState : Type 0 where
  pending activating deferred soaking converged failed reverted : WireState

pub record HostRolloutSnapshot : Type 0 where
  pub rollout_id : RolloutId
  pub hostname : String
  pub channel : String
  pub state : WireState
  pub target_closure : String
  pub current_closure_at_dispatch : Option String
  pub current_closure : Option String
  pub dispatched_at : Time
  pub dispatch_acked_at : Option Time
  pub activation_started_at : Option Time
  pub activation_completed_at : Option Time
  pub soak_due_at : Option Time
  pub last_event_seq : ℕ
