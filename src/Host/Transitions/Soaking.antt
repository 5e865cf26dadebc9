-- ===== src/Host/Transitions/Soaking.antt =====
-- crates/nixfleet-state-machine/src/transitions/soaking.rs
use nixfleet.Prelude.{
  String, Bool, true, false, not, Option, none, some, [], ◌∷◌, ◌++◌, Result, ok, err, ◌>>◌,
  if◌then◌else◌, ltb, any, string_eq, unwrap_or,
}
use nixfleet.Prelude.HashMap.{HashMap, get, insert, values}
use nixfleet.Proto.{Time, RolloutPolicy, ClosureHash}
use nixfleet.Host.State.{
  HostState, HostRolloutState, ProbeRecord, ProbeMode, ProbeStatus, pass, fail, enforce, observe,
  disabled,
}
use nixfleet.Host.Event.{
  Event, local_probe_topology_declared, remote_probe_topology_declared, local_probe_observed_first,
  remote_probe_observed_first, local_probe_result, remote_probe_result, local_probe_failure_first,
  remote_probe_failure_first, local_sustained_failure_crossed, remote_failed,
  local_converged_reached, remote_converged,
}
use nixfleet.Host.Effect.{
  OutboundAgentEvent, record_transition, local_emit_event, remote_append_event_log,
}
use nixfleet.Host.Transitions.Rollback.{rollback_effects}
use nixfleet.Host.Error.{Outcome, TransitionError, invariant, illegal}

-- `update_probe`: `entry(name).or_insert(…)`, then the writes to the entry.
unfoldable pub update_probe :
    HashMap String ProbeRecord
    → String
    → ProbeMode
    → ProbeStatus
    → Time
    → Option String
    → HashMap String ProbeRecord
update_probe probes name mode status observed_at failure_reason =
    let entry : ProbeRecord = unwrap_or (get probes name) (record {
      status = status;
      mode = mode;
      last_observed_at = observed_at;
      last_pass_at = none;
      failure_reason = none;
    }) in
    insert probes name (elim status [
      | pass ↦ record entry {
        status = pass;
        mode = mode;
        last_observed_at = observed_at;
        last_pass_at = some observed_at;
        failure_reason = none;
      }
      | fail ↦ record entry {
        status = fail;
        mode = mode;
        last_observed_at = observed_at;
        failure_reason = failure_reason;
      }
    ])

-- The test of the third invariant, on one probe: enforced, and not passing.
abbrev pub is_blocking : ProbeMode → ProbeStatus → Bool
is_blocking enforce pass = false
is_blocking enforce fail = true
is_blocking observe _ = false
is_blocking disabled _ = false

unfoldable pub verify_converged_invariants :
    HostRolloutState → ClosureHash → Time → Result (Unit {0}) TransitionError
unfolding any
verify_converged_invariants s current_closure converged_at =
    if not (string_eq.beq current_closure s.target_closure)
    then err (invariant "Converged event: current_closure != target_closure")
    else if elim s.soak_due_at [ none ↦ false | some due ↦ ltb converged_at due ]
    then err (invariant "Converged event: converged_at before soak_due_at")
    else if any (λ (p : ProbeRecord). is_blocking p.mode p.status) (values s.probes)
    then err (invariant "Converged event: at least one enforce-mode probe is not Pass")
    else ok tt

-- `if field.is_none() { field = Some(t) }`
abbrev pub first_stamp : Option Time → Time → Option Time
first_stamp none t = some t
first_stamp (some u) t = some u

unfoldable pub handle : HostRolloutState → Event → Time → RolloutPolicy → Outcome
unfolding illegal rollback_effects
handle s (local_probe_topology_declared probes declared_at n) now policy = ok (
  record s { last_event_seq = n },
  local_emit_event s.rollout_id (OutboundAgentEvent.probe_topology_declared probes declared_at n)
        true
      ∷ [],
)
handle s (remote_probe_topology_declared probes declared_at n) now policy = ok (
  record s { last_event_seq = n },
  remote_append_event_log s.hostname s.rollout_id
        (OutboundAgentEvent.probe_topology_declared probes declared_at n)
      ∷ [],
)
handle s (local_probe_observed_first name mode observed_at n) now policy = ok (
  record s {
    probe_observed_first_at = first_stamp s.probe_observed_first_at observed_at;
    last_event_seq = n;
  },
  local_emit_event s.rollout_id (OutboundAgentEvent.probe_observed_first name mode observed_at n)
        false
      ∷ [],
)
handle s (remote_probe_observed_first name mode observed_at n) now policy = ok (
  record s {
    probe_observed_first_at = first_stamp s.probe_observed_first_at observed_at;
    last_event_seq = n;
  },
  remote_append_event_log s.hostname s.rollout_id
        (OutboundAgentEvent.probe_observed_first name mode observed_at n)
      ∷ [],
)
handle s (local_probe_result name mode status observed_at reason sub_results n) now policy = ok (
  record s {
    probes = update_probe s.probes name mode status observed_at reason;
    last_event_seq = n;
  },
  local_emit_event s.rollout_id
        (OutboundAgentEvent.probe_result name mode status observed_at reason sub_results n) false
      ∷ [],
)
handle s (remote_probe_result name mode status observed_at reason sub_results n) now policy = ok (
  record s {
    probes = update_probe s.probes name mode status observed_at reason;
    last_event_seq = n;
  },
  remote_append_event_log s.hostname s.rollout_id
        (OutboundAgentEvent.probe_result name mode status observed_at reason sub_results n)
      ∷ [],
)
handle s (local_probe_failure_first name mode first_failed_at n) now policy = ok (
  record s {
    probe_failure_first_at = first_stamp s.probe_failure_first_at first_failed_at;
    last_event_seq = n;
  },
  local_emit_event s.rollout_id (OutboundAgentEvent.probe_failure_first name mode first_failed_at n)
        false
      ∷ [],
)
handle s (remote_probe_failure_first name mode first_failed_at n) now policy = ok (
  record s {
    probe_failure_first_at = first_stamp s.probe_failure_first_at first_failed_at;
    last_event_seq = n;
  },
  remote_append_event_log s.hostname s.rollout_id
        (OutboundAgentEvent.probe_failure_first name mode first_failed_at n)
      ∷ [],
)
handle s (local_sustained_failure_crossed failed_at secs failing applied n) now policy = ok (
  record s {
    state = HostState.failed;
    failed_at = some failed_at;
    policy_applied = some applied;
    last_event_seq = n;
  },
  (local_emit_event s.rollout_id (OutboundAgentEvent.failed failed_at secs failing applied n) true
        ∷ record_transition s.hostname s.rollout_id s.state HostState.failed failed_at
        ∷ [])
      ++ rollback_effects applied s,
)
handle s (remote_failed failed_at secs failing applied n) now policy = ok (
  record s {
    state = HostState.failed;
    failed_at = some failed_at;
    policy_applied = some applied;
    last_event_seq = n;
  },
  remote_append_event_log s.hostname s.rollout_id
        (OutboundAgentEvent.failed failed_at secs failing applied n)
      ∷ record_transition s.hostname s.rollout_id s.state HostState.failed failed_at
      ∷ [],
)
handle s (local_converged_reached converged_at current_closure n) now policy =
    verify_converged_invariants s current_closure converged_at
    >> ok (
      record s {
        state = HostState.converged;
        converged_at = some converged_at;
        current_closure = some current_closure;
        last_event_seq = n;
      },
      local_emit_event s.rollout_id (OutboundAgentEvent.converged converged_at current_closure n)
            true
          ∷ record_transition s.hostname s.rollout_id s.state HostState.converged converged_at
          ∷ [],
    )
handle s (remote_converged converged_at current_closure n) now policy =
    verify_converged_invariants s current_closure converged_at
    >> ok (
      record s {
        state = HostState.converged;
        converged_at = some converged_at;
        current_closure = some current_closure;
        last_event_seq = n;
      },
      remote_append_event_log s.hostname s.rollout_id
            (OutboundAgentEvent.converged converged_at current_closure n)
          ∷ record_transition s.hostname s.rollout_id s.state HostState.converged converged_at
          ∷ [],
    )
handle s e now policy = err (illegal s e)
