-- ===== src/Host/Transitions/Activating.antt =====
-- crates/nixfleet-state-machine/src/transitions/activating.rs
use nixfleet.Prelude.{true, some, [], ◌∷◌, ◌++◌, ok, err}
use nixfleet.Proto.{Time, RolloutPolicy}
use nixfleet.Host.State.{HostState, HostRolloutState}
use nixfleet.Host.Event.{
  Event, local_activation_started, remote_activation_started, local_activation_completed,
  remote_activation_completed, local_activation_deferred, remote_activation_deferred,
  local_activation_failed, remote_activation_failed,
}
use nixfleet.Host.Effect.{
  OutboundAgentEvent, record_transition, local_emit_event, local_reset_probe_cache,
  remote_append_event_log,
}
use nixfleet.Host.Transitions.Rollback.{rollback_effects}
use nixfleet.Host.Error.{Outcome, illegal}

unfoldable pub handle : HostRolloutState → Event → Time → RolloutPolicy → Outcome
unfolding illegal rollback_effects
handle s (local_activation_started started_at method n) now policy = ok (
  record s { activation_started_at = some started_at; last_event_seq = n },
  local_emit_event s.rollout_id (OutboundAgentEvent.activation_started started_at method n) true
      ∷ [],
)
handle s (remote_activation_started started_at method n) now policy = ok (
  record s { activation_started_at = some started_at; last_event_seq = n },
  remote_append_event_log s.hostname s.rollout_id
        (OutboundAgentEvent.activation_started started_at method n)
      ∷ [],
)
handle s (local_activation_completed observed exit_code completed_at n) now policy = ok (
  record s {
    state = HostState.soaking;
    activation_completed_at = some completed_at;
    current_closure = some observed;
    probes = [];
    last_event_seq = n;
  },
  local_reset_probe_cache s.rollout_id
      ∷ local_emit_event s.rollout_id
          (OutboundAgentEvent.activation_completed observed exit_code completed_at n) true
      ∷ record_transition s.hostname s.rollout_id s.state HostState.soaking completed_at
      ∷ [],
)
handle s (remote_activation_completed observed exit_code completed_at n) now policy = ok (
  record s {
    state = HostState.soaking;
    activation_completed_at = some completed_at;
    current_closure = some observed;
    probes = [];
    last_event_seq = n;
  },
  remote_append_event_log s.hostname s.rollout_id
        (OutboundAgentEvent.activation_completed observed exit_code completed_at n)
      ∷ record_transition s.hostname s.rollout_id s.state HostState.soaking completed_at
      ∷ [],
)
handle s (local_activation_deferred component deferred_at n) now policy = ok (
  record s { state = HostState.deferred; last_event_seq = n },
  local_emit_event s.rollout_id (OutboundAgentEvent.activation_deferred component deferred_at n)
        true
      ∷ record_transition s.hostname s.rollout_id s.state HostState.deferred deferred_at
      ∷ [],
)
handle s (remote_activation_deferred component deferred_at n) now policy = ok (
  record s { state = HostState.deferred; last_event_seq = n },
  remote_append_event_log s.hostname s.rollout_id
        (OutboundAgentEvent.activation_deferred component deferred_at n)
      ∷ record_transition s.hostname s.rollout_id s.state HostState.deferred deferred_at
      ∷ [],
)
handle s (local_activation_failed exit_code stderr_tail failed_at n) now policy = ok (
  record s {
    state = HostState.failed;
    activation_failed_at = some failed_at;
    failed_at = some failed_at;
    policy_applied = some policy.on_health_failure;
    last_event_seq = n;
  },
  (local_emit_event s.rollout_id
          (OutboundAgentEvent.activation_failed exit_code stderr_tail failed_at n) true
        ∷ record_transition s.hostname s.rollout_id s.state HostState.failed failed_at
        ∷ [])
      ++ rollback_effects policy.on_health_failure s,
)
handle s (remote_activation_failed exit_code stderr_tail failed_at n) now policy = ok (
  record s {
    state = HostState.failed;
    activation_failed_at = some failed_at;
    failed_at = some failed_at;
    policy_applied = some policy.on_health_failure;
    last_event_seq = n;
  },
  remote_append_event_log s.hostname s.rollout_id
        (OutboundAgentEvent.activation_failed exit_code stderr_tail failed_at n)
      ∷ record_transition s.hostname s.rollout_id s.state HostState.failed failed_at
      ∷ [],
)
handle s e now policy = err (illegal s e)
