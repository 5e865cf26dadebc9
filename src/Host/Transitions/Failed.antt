-- ===== src/Host/Transitions/Failed.antt =====
-- crates/nixfleet-state-machine/src/transitions/failed.rs
use nixfleet.Prelude.{true, some, [], ◌∷◌, ok, err}
use nixfleet.Proto.{Time, RolloutPolicy}
use nixfleet.Host.State.{HostState, HostRolloutState}
use nixfleet.Host.Event.{Event, local_rollback_completed, remote_rollback_complete}
use nixfleet.Host.Effect.{
  OutboundAgentEvent, record_transition, local_emit_event, remote_append_event_log,
  remote_insert_quarantine,
}
use nixfleet.Host.Error.{Outcome, illegal}

unfoldable pub handle : HostRolloutState → Event → Time → RolloutPolicy → Outcome
unfolding illegal
handle s (local_rollback_completed reverted_to exit_code completed_at n) now policy = ok (
  record s {
    state = HostState.reverted;
    reverted_at = some completed_at;
    reverted_to = some reverted_to;
    current_closure = some reverted_to;
    last_event_seq = n;
  },
  local_emit_event s.rollout_id
        (OutboundAgentEvent.rollback_complete reverted_to exit_code completed_at n) true
      ∷ record_transition s.hostname s.rollout_id s.state HostState.reverted completed_at
      ∷ [],
)
handle s (remote_rollback_complete reverted_to exit_code completed_at n) now policy = ok (
  record s {
    state = HostState.reverted;
    reverted_at = some completed_at;
    reverted_to = some reverted_to;
    current_closure = some reverted_to;
    last_event_seq = n;
  },
  remote_append_event_log s.hostname s.rollout_id
        (OutboundAgentEvent.rollback_complete reverted_to exit_code completed_at n)
      ∷ remote_insert_quarantine s.channel s.target_closure
      ∷ record_transition s.hostname s.rollout_id s.state HostState.reverted completed_at
      ∷ [],
)
handle s e now policy = err (illegal s e)
