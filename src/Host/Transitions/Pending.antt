-- ===== src/Host/Transitions/Pending.antt =====
-- crates/nixfleet-state-machine/src/transitions/pending.rs
use nixfleet.Prelude.{true, some, [], ◌∷◌, ok, err, unwrap_or}
use nixfleet.Proto.{Time, RolloutPolicy}
use nixfleet.Host.State.{HostState, HostRolloutState}
use nixfleet.Host.Event.{Event, local_activate, remote_dispatch_ack}
use nixfleet.Host.Effect.{
  OutboundAgentEvent, record_transition, local_emit_event, local_fire_switch,
  remote_append_event_log,
}
use nixfleet.Host.Error.{Outcome, illegal}

unfoldable pub handle : HostRolloutState → Event → Time → RolloutPolicy → Outcome
unfolding illegal
handle s (local_activate at_dispatch _ received_at _ n) now policy = ok (
  record s {
    state = HostState.activating;
    current_closure_at_dispatch = some at_dispatch;
    dispatch_acked_at = some received_at;
    last_event_seq = n;
  },
  record_transition s.hostname s.rollout_id s.state HostState.activating received_at
      ∷ local_emit_event s.rollout_id (OutboundAgentEvent.dispatch_ack at_dispatch received_at n)
          true
      ∷ local_fire_switch s.rollout_id s.target_closure
      ∷ [],
)
handle s (remote_dispatch_ack at_dispatch received_at n) now policy = ok (
  record s {
    state = HostState.activating;
    current_closure_at_dispatch = some at_dispatch;
    dispatch_acked_at = some received_at;
    last_event_seq = n;
  },
  remote_append_event_log s.hostname s.rollout_id
        (OutboundAgentEvent.dispatch_ack (unwrap_or (some at_dispatch) "") received_at n)
      ∷ record_transition s.hostname s.rollout_id s.state HostState.activating received_at
      ∷ [],
)
handle s e now policy = err (illegal s e)
