-- ===== src/Agent/Numbering.antt =====
-- The agent numbers the events of its own workers (runtime/reducer.rs: `run_host_event`, `with_seq`).
use nixfleet.Prelude.{
  ℕ, ◌+◌, ◌^◌, ◌<◌, ◌≤◌, ◌≡◌, refl, inl, inr, Bool, true, false, Option, none, some, [], arith,
  Option-cases, Result-cases, String, beq_refl,
}
use nixfleet.Prelude.HashMap.{get, get-insert}
use nixfleet.Proto.{Time, RolloutId, rollout_id_eq, RolloutPolicy}
use nixfleet.Host.State.{
  HostState, HostRolloutState, pending, activating, deferred, soaking, converged, failed, reverted,
}
use nixfleet.Host.Event.{Event, seq}
use nixfleet.Host.Transitions.{step}
use nixfleet.Host.Steps.{step_stale, step-seq}
use nixfleet.Host.Diagram.{legal, refusal, claim_refusal, claims_converged}
use nixfleet.Host.Diagram.Verdicts.{due_refusal, step-refusal}
use nixfleet.Planner.Types.{SignedManifestSet}
use nixfleet.Agent.Reducer.{Records, with_seq, next_seq, record_for, resolve_policy, run_host_event}

-- The events of the agent's workers that `with_seq` numbers.
unfoldable pub is_numbered : Event → Bool
is_numbered (Event.local_activate _ _ _ _ _) = true
is_numbered (Event.local_activation_started _ _ _) = true
is_numbered (Event.local_activation_completed _ _ _ _) = true
is_numbered (Event.local_activation_failed _ _ _ _) = true
is_numbered (Event.local_probe_topology_declared _ _ _) = true
is_numbered (Event.local_probe_observed_first _ _ _ _) = true
is_numbered (Event.local_probe_result _ _ _ _ _ _ _) = true
is_numbered (Event.local_probe_failure_first _ _ _ _) = true
is_numbered (Event.local_sustained_failure_crossed _ _ _ _ _) = true
is_numbered (Event.local_rollback_completed _ _ _ _) = true
is_numbered (Event.local_converged_reached _ _ _) = true
is_numbered _ = false

pub with_seq-seq : (e : Event) (n : ℕ) → is_numbered e ≡ true → seq (with_seq e n) ≡ n
unfolding with_seq is_numbered seq
with_seq-seq e n h = ground arith

with_seq-legal : (h : HostState) (e : Event) (n : ℕ) → legal h (with_seq e n) ≡ legal h e
unfolding with_seq legal
with_seq-legal pending e n = ground arith
with_seq-legal activating e n = ground arith
with_seq-legal deferred e n = ground arith
with_seq-legal soaking e n = ground arith
with_seq-legal converged e n = ground arith
with_seq-legal failed e n = ground arith
with_seq-legal reverted e n = ground arith

with_seq-claim_refusal :
    (s : HostRolloutState) (e : Event) (n : ℕ) → claim_refusal s (with_seq e n) ≡ claim_refusal s e
unfolding with_seq claim_refusal claims_converged
with_seq-claim_refusal s e n = ground arith

-- A numbered event that the table allows, and whose claim holds, is accepted.
pub numbered-refusal :
    (s : HostRolloutState) (e : Event) (now : Time) (policy : RolloutPolicy)
    → is_numbered e ≡ true
    → s.last_event_seq + 1 < 2 ^ 64
    → legal s.state e ≡ true
    → claim_refusal s e ≡ none
    → refusal (step s (with_seq e (next_seq s)) now policy) ≡ none
unfolding due_refusal
numbered-refusal s e now policy numbered room edge claim = ground (
  arith,
  step-refusal s (with_seq e (next_seq s)) now policy,
  with_seq-seq e (next_seq s) numbered,
  with_seq-legal s.state e (next_seq s),
  with_seq-claim_refusal s e (next_seq s),
)

-- The record is there, and its number is the next one.
abbrev pub Advanced : HostRolloutState → Option HostRolloutState → Type 0
Advanced s none = ⊥
Advanced s (some t) = t.last_event_seq ≡ s.last_event_seq + 1

pub run_host_event-Advanced :
    (records : Records) (manifests : Option SignedManifestSet) (now : Time) (id : RolloutId)
    (e : Event) (s : HostRolloutState) (policy : RolloutPolicy)
    → get records id ≡ some s
    → resolve_policy manifests s.channel ≡ some policy
    → is_numbered e ≡ true
    → s.last_event_seq + 1 < 2 ^ 64
    → legal s.state e ≡ true
    → claim_refusal s e ≡ none
    → Advanced s (get (run_host_event records manifests now id e).0 id)
unfolding run_host_event record_for
run_host_event-Advanced records manifests now id e s policy row known numbered room edge claim =
    elim (Result-cases (step s (with_seq e (next_seq s)) now policy)) [
      | inl ((t, fx), k) ↦
          rw (run_host_event, record_for, row, known, k, get-insert, beq_refl id)
            (omega (
              arith,
              step-seq s (with_seq e (next_seq s)) now policy k,
              with_seq-seq e (next_seq s) numbered,
            ))
      | inr (x, k) ↦
          let none_refused = numbered-refusal s e now policy numbered room edge claim in
          ground (arith, k, none_refused)
    ]

-- A deferred activation that the activation worker reports, with the number 0 that workers give, is
-- always dropped: `with_seq` leaves its number as it is, so that no record and no policy makes the
-- agent take it, and neither the records change nor is any effect caused.
pub run_host_event-local_activation_deferred :
    (records : Records) (manifests : Option SignedManifestSet) (now : Time) (id : RolloutId)
    (component : String) (at : Time)
    → run_host_event records manifests now id (Event.local_activation_deferred component at 0)
      ≡ (records, [])
unfolding run_host_event with_seq seq
run_host_event-local_activation_deferred records manifests now id component at =
    let e = Event.local_activation_deferred component at 0 in
    elim (Option-cases (record_for records id e now)) [
      | inl k ↦ rw (run_host_event, k) refl
      | inr (s, k) ↦ elim (Option-cases (resolve_policy manifests s.channel)) [
        | inl l ↦ rw (run_host_event, k, l) refl
        | inr (policy, l) ↦
            let low : seq e ≤ s.last_event_seq = omega arith in
            rw (run_host_event, k, l, with_seq, step_stale s e now policy low) refl
      ]
    ]
