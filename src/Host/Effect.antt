-- ===== src/Host/Effect.antt =====
-- crates/nixfleet-state-machine/src/effect.rs: the outputs of the reducer, as data.
use nixfleet.Prelude.{ℕ, String, Bool, Option, List}
use nixfleet.Prelude.Int.{ℤ}
use nixfleet.Proto.{Time, RolloutId, ClosureHash, OnHealthFailure}
use nixfleet.Host.State.{HostState, ProbeMode, ProbeStatus, ProbeSubResult}
use nixfleet.Host.Event.{ProbeTopologyEntry}

pub data LogLevel : Type 0 where
  trace debug info warn error : LogLevel

pub data OutboundAgentEvent : Type 0 where
  dispatch_ack :
      (current_closure_at_dispatch : ClosureHash) (received_at : Time) (seq : ℕ)
      → OutboundAgentEvent
  activation_started : (started_at : Time) (switch_method : String) (seq : ℕ) → OutboundAgentEvent
  activation_completed :
      (observed_current_closure : ClosureHash) (exit_code : ℤ) (completed_at : Time) (seq : ℕ)
      → OutboundAgentEvent
  activation_failed :
      (exit_code : ℤ) (stderr_tail : String) (failed_at : Time) (seq : ℕ) → OutboundAgentEvent
  activation_deferred : (component : String) (deferred_at : Time) (seq : ℕ) → OutboundAgentEvent
  probe_topology_declared :
      (probes : List ProbeTopologyEntry) (declared_at : Time) (seq : ℕ) → OutboundAgentEvent
  probe_observed_first :
      (probe_name : String) (mode : ProbeMode) (observed_at : Time) (seq : ℕ) → OutboundAgentEvent
  probe_result :
      (probe_name : String) (mode : ProbeMode) (status : ProbeStatus) (observed_at : Time)
      (failure_reason : Option String) (sub_results : Option (List ProbeSubResult)) (seq : ℕ)
      → OutboundAgentEvent
  probe_failure_first :
      (probe_name : String) (mode : ProbeMode) (first_failed_at : Time) (seq : ℕ)
      → OutboundAgentEvent
  failed :
      (failed_at : Time) (sustained_duration_secs : ℕ) (failing_probes : List String)
      (policy_applied : OnHealthFailure) (seq : ℕ)
      → OutboundAgentEvent
  rollback_complete :
      (reverted_to_closure : ClosureHash) (exit_code : ℤ) (completed_at : Time) (seq : ℕ)
      → OutboundAgentEvent
  converged : (converged_at : Time) (current_closure : ClosureHash) (seq : ℕ) → OutboundAgentEvent

-- The f64 of `EmitMetric` is its bit pattern; the reducer never makes one.
pub data Effect : Type 0 where
  local_fire_switch : (rollout_id : RolloutId) (target : ClosureHash) → Effect
  local_fire_rollback_to : (rollout_id : RolloutId) (closure : ClosureHash) → Effect
  local_reset_probe_cache : (rollout_id : RolloutId) → Effect
  local_emit_event :
      (rollout_id : RolloutId) (payload : OutboundAgentEvent) (durable : Bool) → Effect
  remote_queue_dispatch :
      (host : String) (rollout_id : RolloutId) (target_closure : ClosureHash) (soak_due_at : Time)
      → Effect
  remote_insert_quarantine : (channel : String) (closure : ClosureHash) → Effect
  remote_open_rollout_record : (rollout_id : RolloutId) (channel host : String) → Effect
  remote_append_event_log :
      (host : String) (rollout_id : RolloutId) (payload : OutboundAgentEvent) → Effect
  record_transition :
      (host : String) (rollout_id : RolloutId) (from to : HostState) (at : Time) → Effect
  emit_metric : (name : String) (labels : List (String × String)) (value : ℕ) → Effect
  emit_log : (level : LogLevel) (target message : String) (fields : List (String × String)) → Effect
