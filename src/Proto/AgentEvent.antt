-- ===== src/Proto/AgentEvent.antt =====
-- crates/nixfleet-proto/src/agent_event.rs: the wire form of the agent's events.
use nixfleet.Prelude.{ℕ, String, Option, List}
use nixfleet.Prelude.Int.{ℤ}
use nixfleet.Proto.Identity.{Time}
use nixfleet.Proto.Policy.{OnHealthFailure}

pub data ProbeStatusWire : Type 0 where
  pass fail : ProbeStatusWire

pub data ProbeModeWire : Type 0 where
  enforce observe disabled : ProbeModeWire

pub data OnHealthFailureWire : Type 0 where
  halt rollback_and_halt : OnHealthFailureWire

pub record ProbeTopologyEntryWire : Type 0 where
  pub probe_name : String
  pub kind : String
  pub mode : ProbeModeWire

pub record ProbeSubResultWire : Type 0 where
  pub control_id : String
  pub status : ProbeStatusWire
  pub framework : String
  pub article : Option String
  pub effective_mode : ProbeModeWire
  pub override_reason : Option String

pub data AgentEvent : Type 0 where
  dispatch_ack : (current_closure_at_dispatch : String) (received_at : Time) (seq : ℕ) → AgentEvent
  activation_started : (started_at : Time) (switch_method : String) (seq : ℕ) → AgentEvent
  activation_completed :
      (observed_current_closure : String) (exit_code : ℤ) (completed_at : Time) (seq : ℕ)
      → AgentEvent
  activation_failed :
      (exit_code : ℤ) (stderr_tail : String) (failed_at : Time) (seq : ℕ) → AgentEvent
  activation_deferred : (component : String) (deferred_at : Time) (seq : ℕ) → AgentEvent
  probe_topology_declared :
      (probes : List ProbeTopologyEntryWire) (declared_at : Time) (seq : ℕ) → AgentEvent
  probe_observed_first :
      (probe_name : String) (mode : ProbeModeWire) (observed_at : Time) (seq : ℕ) → AgentEvent
  probe_result :
      (probe_name : String) (mode : ProbeModeWire) (status : ProbeStatusWire) (observed_at : Time)
      (failure_reason : Option String) (sub_results : Option (List ProbeSubResultWire)) (seq : ℕ)
      → AgentEvent
  probe_failure_first :
      (probe_name : String) (mode : ProbeModeWire) (first_failed_at : Time) (seq : ℕ) → AgentEvent
  failed :
      (failed_at : Time) (sustained_duration_secs : ℕ) (failing_probes : List String)
      (policy_applied : OnHealthFailureWire) (seq : ℕ)
      → AgentEvent
  rollback_complete :
      (reverted_to_closure : String) (exit_code : ℤ) (completed_at : Time) (seq : ℕ) → AgentEvent
  converged : (converged_at : Time) (current_closure : String) (seq : ℕ) → AgentEvent

-- `AgentEvent::seq`
unfoldable pub seq : AgentEvent → ℕ
seq (dispatch_ack _ _ n) = n
seq (activation_started _ _ n) = n
seq (activation_completed _ _ _ n) = n
seq (activation_failed _ _ _ n) = n
seq (activation_deferred _ _ n) = n
seq (probe_topology_declared _ _ n) = n
seq (probe_observed_first _ _ _ n) = n
seq (probe_result _ _ _ _ _ _ n) = n
seq (probe_failure_first _ _ _ n) = n
seq (failed _ _ _ _ n) = n
seq (rollback_complete _ _ _ n) = n
seq (converged _ _ n) = n

unfoldable pub policy_from_wire : OnHealthFailureWire → OnHealthFailure
policy_from_wire OnHealthFailureWire.halt = OnHealthFailure.halt
policy_from_wire OnHealthFailureWire.rollback_and_halt = OnHealthFailure.rollback_and_halt

unfoldable pub policy_to_wire : OnHealthFailure → OnHealthFailureWire
policy_to_wire OnHealthFailure.halt = OnHealthFailureWire.halt
policy_to_wire OnHealthFailure.rollback_and_halt = OnHealthFailureWire.rollback_and_halt
