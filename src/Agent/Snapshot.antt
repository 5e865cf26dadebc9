-- ===== src/Agent/Snapshot.antt =====
-- A record as a snapshot on the wire, and back: `host_rollout_state_to_snapshot` of
-- crates/nixfleet-control-plane/src/runtime/reducer.rs and `merge_snapshot_into_state` of the agent's.
use nixfleet.Prelude.{◌≡◌, refl, Option, none, some, [], arith}
use nixfleet.Proto.Snapshot.{WireState, HostRolloutSnapshot}
use nixfleet.Host.State.{HostState, HostRolloutState}

unfoldable pub state_to_wire : HostState → WireState
state_to_wire HostState.pending = WireState.pending
state_to_wire HostState.activating = WireState.activating
state_to_wire HostState.deferred = WireState.deferred
state_to_wire HostState.soaking = WireState.soaking
state_to_wire HostState.converged = WireState.converged
state_to_wire HostState.failed = WireState.failed
state_to_wire HostState.reverted = WireState.reverted

unfoldable pub state_from_wire : WireState → HostState
state_from_wire WireState.pending = HostState.pending
state_from_wire WireState.activating = HostState.activating
state_from_wire WireState.deferred = HostState.deferred
state_from_wire WireState.soaking = HostState.soaking
state_from_wire WireState.converged = HostState.converged
state_from_wire WireState.failed = HostState.failed
state_from_wire WireState.reverted = HostState.reverted

unfoldable pub host_rollout_state_to_snapshot : HostRolloutState → HostRolloutSnapshot
unfolding state_to_wire
host_rollout_state_to_snapshot s = record {
  rollout_id = s.rollout_id;
  hostname = s.hostname;
  channel = s.channel;
  state = state_to_wire s.state;
  target_closure = s.target_closure;
  current_closure_at_dispatch = s.current_closure_at_dispatch;
  current_closure = s.current_closure;
  dispatched_at = s.dispatched_at;
  dispatch_acked_at = s.dispatch_acked_at;
  activation_started_at = s.activation_started_at;
  activation_completed_at = s.activation_completed_at;
  soak_due_at = s.soak_due_at;
  last_event_seq = s.last_event_seq;
}

-- `existing.and_then(|e| e.field)`
abbrev and_then {ℓ} :
    {A : Type ℓ} → Option HostRolloutState → (HostRolloutState → Option A) → Option A
and_then none f = none
and_then (some e) f = f e

unfoldable pub merge_snapshot_into_state :
    Option HostRolloutState → HostRolloutSnapshot → HostRolloutState
unfolding state_from_wire
merge_snapshot_into_state existing w = record {
  rollout_id = w.rollout_id;
  hostname = w.hostname;
  channel = w.channel;
  state = state_from_wire w.state;
  target_closure = w.target_closure;
  current_closure_at_dispatch = w.current_closure_at_dispatch;
  current_closure = w.current_closure;
  dispatched_at = w.dispatched_at;
  dispatch_acked_at = w.dispatch_acked_at;
  activation_started_at = w.activation_started_at;
  activation_completed_at = w.activation_completed_at;
  soak_due_at = w.soak_due_at;
  last_event_seq = w.last_event_seq;
  probes = elim existing [ none ↦ [] | some e ↦ e.probes ];
  probe_observed_first_at = and_then existing (λ e. e.probe_observed_first_at);
  probe_failure_first_at = and_then existing (λ e. e.probe_failure_first_at);
  activation_failed_at = and_then existing (λ e. e.activation_failed_at);
  failed_at = and_then existing (λ e. e.failed_at);
  converged_at = and_then existing (λ e. e.converged_at);
  reverted_to = and_then existing (λ e. e.reverted_to);
  reverted_at = and_then existing (λ e. e.reverted_at);
  policy_applied = and_then existing (λ e. e.policy_applied);
}

state_round_trip : (h : HostState) → state_from_wire (state_to_wire h) ≡ h
unfolding state_from_wire state_to_wire
state_round_trip h = ground arith

wire_round_trip : (h : WireState) → state_to_wire (state_from_wire h) ≡ h
unfolding state_from_wire state_to_wire
wire_round_trip h = ground arith

-- A snapshot of an agent's own record leaves the record as it is, its probe map and its failure
-- timer included; and whatever the agent held, its record after a snapshot is the one that the
-- snapshot is of, as far as the wire carries it.
pub merge_snapshot_into_state-host_rollout_state_to_snapshot :
    (s : HostRolloutState) (existing : Option HostRolloutState) (w : HostRolloutSnapshot)
    → (merge_snapshot_into_state (some s) (host_rollout_state_to_snapshot s) ≡ s)
      × (host_rollout_state_to_snapshot (merge_snapshot_into_state existing w) ≡ w)
unfolding merge_snapshot_into_state host_rollout_state_to_snapshot
merge_snapshot_into_state-host_rollout_state_to_snapshot s existing w =
    (rw state_round_trip refl, rw wire_round_trip refl)
