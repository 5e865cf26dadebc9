-- ===== src/Host/Event.antt =====
-- crates/nixfleet-state-machine/src/event.rs: the inputs of the reducer.
use nixfleet.Prelude.{ℕ, String, Option, List}
use nixfleet.Prelude.Int.{ℤ}
use nixfleet.Proto.{Time, ClosureHash, OnHealthFailure}
use nixfleet.Host.State.{ProbeMode, ProbeStatus, ProbeSubResult}

pub record ProbeTopologyEntry : Type 0 where
  pub probe_name : String
  pub kind : String
  pub mode : ProbeMode

pub data Event : Type 0 where
  local_activate :
      (current_closure_at_dispatch target_closure : ClosureHash) (received_at soak_due_at : Time)
      (seq : ℕ)
      → Event
  local_activation_started : (started_at : Time) (switch_method : String) (seq : ℕ) → Event
  local_activation_completed :
      (observed_current_closure : ClosureHash) (exit_code : ℤ) (completed_at : Time) (seq : ℕ)
      → Event
  local_activation_deferred : (component : String) (deferred_at : Time) (seq : ℕ) → Event
  local_activation_failed :
      (exit_code : ℤ) (stderr_tail : String) (failed_at : Time) (seq : ℕ) → Event
  local_probe_topology_declared :
      (probes : List ProbeTopologyEntry) (declared_at : Time) (seq : ℕ) → Event
  local_probe_observed_first :
      (probe_name : String) (mode : ProbeMode) (observed_at : Time) (seq : ℕ) → Event
  local_probe_result :
      (probe_name : String) (mode : ProbeMode) (status : ProbeStatus) (observed_at : Time)
      (failure_reason : Option String) (sub_results : Option (List ProbeSubResult)) (seq : ℕ)
      → Event
  local_probe_failure_first :
      (probe_name : String) (mode : ProbeMode) (first_failed_at : Time) (seq : ℕ) → Event
  local_sustained_failure_crossed :
      (failed_at : Time) (sustained_duration_secs : ℕ) (failing_probes : List String)
      (policy_applied : OnHealthFailure) (seq : ℕ)
      → Event
  local_rollback_completed :
      (reverted_to_closure : ClosureHash) (exit_code : ℤ) (completed_at : Time) (seq : ℕ) → Event
  local_converged_reached : (converged_at : Time) (current_closure : ClosureHash) (seq : ℕ) → Event
  remote_dispatch_ack :
      (current_closure_at_dispatch : ClosureHash) (received_at : Time) (seq : ℕ) → Event
  remote_activation_started : (started_at : Time) (switch_method : String) (seq : ℕ) → Event
  remote_activation_deferred : (component : String) (deferred_at : Time) (seq : ℕ) → Event
  remote_activation_completed :
      (observed_current_closure : ClosureHash) (exit_code : ℤ) (completed_at : Time) (seq : ℕ)
      → Event
  remote_activation_failed :
      (exit_code : ℤ) (stderr_tail : String) (failed_at : Time) (seq : ℕ) → Event
  remote_probe_topology_declared :
      (probes : List ProbeTopologyEntry) (declared_at : Time) (seq : ℕ) → Event
  remote_probe_observed_first :
      (probe_name : String) (mode : ProbeMode) (observed_at : Time) (seq : ℕ) → Event
  remote_probe_result :
      (probe_name : String) (mode : ProbeMode) (status : ProbeStatus) (observed_at : Time)
      (failure_reason : Option String) (sub_results : Option (List ProbeSubResult)) (seq : ℕ)
      → Event
  remote_probe_failure_first :
      (probe_name : String) (mode : ProbeMode) (first_failed_at : Time) (seq : ℕ) → Event
  remote_failed :
      (failed_at : Time) (sustained_duration_secs : ℕ) (failing_probes : List String)
      (policy_applied : OnHealthFailure) (seq : ℕ)
      → Event
  remote_rollback_complete :
      (reverted_to_closure : ClosureHash) (exit_code : ℤ) (completed_at : Time) (seq : ℕ) → Event
  remote_converged : (converged_at : Time) (current_closure : ClosureHash) (seq : ℕ) → Event

-- `Event::seq`
unfoldable pub seq : Event → ℕ
seq (local_activate _ _ _ _ n) = n
seq (local_activation_started _ _ n) = n
seq (local_activation_completed _ _ _ n) = n
seq (local_activation_deferred _ _ n) = n
seq (local_activation_failed _ _ _ n) = n
seq (local_probe_topology_declared _ _ n) = n
seq (local_probe_observed_first _ _ _ n) = n
seq (local_probe_result _ _ _ _ _ _ n) = n
seq (local_probe_failure_first _ _ _ n) = n
seq (local_sustained_failure_crossed _ _ _ _ n) = n
seq (local_rollback_completed _ _ _ n) = n
seq (local_converged_reached _ _ n) = n
seq (remote_dispatch_ack _ _ n) = n
seq (remote_activation_started _ _ n) = n
seq (remote_activation_deferred _ _ n) = n
seq (remote_activation_completed _ _ _ n) = n
seq (remote_activation_failed _ _ _ n) = n
seq (remote_probe_topology_declared _ _ n) = n
seq (remote_probe_observed_first _ _ _ n) = n
seq (remote_probe_result _ _ _ _ _ _ n) = n
seq (remote_probe_failure_first _ _ _ n) = n
seq (remote_failed _ _ _ _ n) = n
seq (remote_rollback_complete _ _ _ n) = n
seq (remote_converged _ _ n) = n

-- `event_name` of transitions/mod.rs
unfoldable pub event_name : Event → String
event_name (local_activate _ _ _ _ _) = "LocalActivate"
event_name (local_activation_started _ _ _) = "LocalActivationStarted"
event_name (local_activation_completed _ _ _ _) = "LocalActivationCompleted"
event_name (local_activation_deferred _ _ _) = "LocalActivationDeferred"
event_name (local_activation_failed _ _ _ _) = "LocalActivationFailed"
event_name (local_probe_topology_declared _ _ _) = "LocalProbeTopologyDeclared"
event_name (local_probe_observed_first _ _ _ _) = "LocalProbeObservedFirst"
event_name (local_probe_result _ _ _ _ _ _ _) = "LocalProbeResult"
event_name (local_probe_failure_first _ _ _ _) = "LocalProbeFailureFirst"
event_name (local_sustained_failure_crossed _ _ _ _ _) = "LocalSustainedFailureCrossed"
event_name (local_rollback_completed _ _ _ _) = "LocalRollbackCompleted"
event_name (local_converged_reached _ _ _) = "LocalConvergedReached"
event_name (remote_dispatch_ack _ _ _) = "RemoteDispatchAck"
event_name (remote_activation_started _ _ _) = "RemoteActivationStarted"
event_name (remote_activation_deferred _ _ _) = "RemoteActivationDeferred"
event_name (remote_activation_completed _ _ _ _) = "RemoteActivationCompleted"
event_name (remote_activation_failed _ _ _ _) = "RemoteActivationFailed"
event_name (remote_probe_topology_declared _ _ _) = "RemoteProbeTopologyDeclared"
event_name (remote_probe_observed_first _ _ _ _) = "RemoteProbeObservedFirst"
event_name (remote_probe_result _ _ _ _ _ _ _) = "RemoteProbeResult"
event_name (remote_probe_failure_first _ _ _ _) = "RemoteProbeFailureFirst"
event_name (remote_failed _ _ _ _ _) = "RemoteFailed"
event_name (remote_rollback_complete _ _ _ _) = "RemoteRollbackComplete"
event_name (remote_converged _ _ _) = "RemoteConverged"
