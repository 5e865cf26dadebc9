-- ===== src/Agent/Gates.antt =====
-- The two gates of the agent's tick (runtime/reducer.rs: `run_advance_tick`).
use nixfleet.Prelude.{
  subst, sym, ◌⊎◌, ℕ, ◌+◌, ◌^◌, ◌<◌, ◌≡◌, refl, inl, inr, true, false, Option, none, some, [], ◌∷◌,
  ok, err, arith, String, any, string_eq, is_empty,
}
use nixfleet.Prelude.HashMap.{HashMap, values}
use nixfleet.Proto.{Time, RolloutPolicy}
use nixfleet.Host.State.{HostState, HostRolloutState, ProbeRecord, soaking, converged, failed}
use nixfleet.Host.Event.{Event, seq}
use nixfleet.Host.Error.{Outcome}
use nixfleet.Host.Transitions.{step, handle_in, is_blocking, verify_converged_invariants}
use nixfleet.Host.Transitions.Soaking
use nixfleet.Host.Steps.{step_newer}
use nixfleet.Planner.Types.{SignedManifestSet}
use nixfleet.Agent.Reducer.{
  with_seq, next_seq, collect_failing_enforce_probes, all_enforce_probes_pass, fail_gate, pass_gate,
}

all_pass-healthy :
    (probes : HashMap String ProbeRecord)
    → all_enforce_probes_pass probes ≡ true
    → any (λ (p : ProbeRecord). is_blocking p.mode p.status) (values probes) ≡ false
unfolding all_enforce_probes_pass any
all_pass-healthy [] h = refl
all_pass-healthy ((name, r) ∷ probes) h = ground (arith, all_pass-healthy probes)

all_pass-no_failing :
    (probes : HashMap String ProbeRecord)
    → all_enforce_probes_pass probes ≡ true
    → is_empty (collect_failing_enforce_probes probes) ≡ true
unfolding all_enforce_probes_pass collect_failing_enforce_probes
all_pass-no_failing [] h = refl
all_pass-no_failing ((name, r) ∷ probes) h = ground (arith, all_pass-no_failing probes)

-- The step is accepted, and ends in the state.
abbrev pub EndsIn : HostState → Outcome → Type 0
EndsIn h (ok (t, _)) = t.state ≡ h
EndsIn h (err _) = ⊥

pass_gate-handle :
    (s : HostRolloutState) (e : Event) (n : ℕ) (now : Time) (policy : RolloutPolicy)
    → pass_gate now s ≡ some e
    → (s.state ≡ soaking) × EndsIn converged (Soaking.handle s (with_seq e n) now policy)
unfolding pass_gate with_seq Soaking.handle verify_converged_invariants
pass_gate-handle s e n now policy h = ground (arith, all_pass-healthy s.probes)

fail_gate-handle :
    (manifests : Option SignedManifestSet) (s : HostRolloutState) (e : Event) (n : ℕ) (now : Time)
    (policy : RolloutPolicy)
    → fail_gate manifests now s ≡ some e
    → (s.state ≡ soaking) × EndsIn failed (Soaking.handle s (with_seq e n) now policy)
unfolding fail_gate with_seq Soaking.handle
fail_gate-handle manifests s e n now policy h = ground arith

gates_apart :
    (manifests : Option SignedManifestSet) (s : HostRolloutState) (e : Event) (now : Time)
    → pass_gate now s ≡ some e
    → fail_gate manifests now s ≡ none
unfolding pass_gate fail_gate
gates_apart manifests s e now h = ground (arith, all_pass-no_failing s.probes)

numbered_in_soak :
    (s : HostRolloutState) (e : Event) (now : Time) (policy : RolloutPolicy) (h : HostState)
    → s.state ≡ soaking
    → seq (with_seq e (next_seq s)) ≡ next_seq s
    → s.last_event_seq + 1 < 2 ^ 64
    → EndsIn h (Soaking.handle s (with_seq e (next_seq s)) now policy)
    → EndsIn h (step s (with_seq e (next_seq s)) now policy)
unfolding handle_in Soaking.handle verify_converged_invariants with_seq
numbered_in_soak s e now policy h in_soak numbered room ends =
    let newer : s.last_event_seq < seq (with_seq e (next_seq s)) = omega (arith, numbered) in
    rw (step_newer s (with_seq e (next_seq s)) now policy newer) (
      subst (λ k. EndsIn h (handle_in k s (with_seq e (next_seq s)) now policy)) (sym in_soak) ends)

fires_numbered :
    (manifests : Option SignedManifestSet) (s : HostRolloutState) (e : Event) (n : ℕ) (now : Time)
    → (pass_gate now s ≡ some e) ⊎ (fail_gate manifests now s ≡ some e)
    → seq (with_seq e n) ≡ n
unfolding pass_gate fail_gate with_seq seq
fires_numbered manifests s e n now (inl h) = ground arith
fires_numbered manifests s e n now (inr h) = ground arith

-- Whenever the pass-gate fires for a record, the event that it makes, numbered by the agent, is
-- accepted and leaves the record converged, and the fail-gate does not fire for the same record at
-- that instant, as long as the numbers of u64 are not used up.
pub pass_gate-EndsIn :
    (manifests : Option SignedManifestSet) (s : HostRolloutState) (e : Event) (now : Time)
    (policy : RolloutPolicy)
    → s.last_event_seq + 1 < 2 ^ 64
    → pass_gate now s ≡ some e
    → EndsIn converged (step s (with_seq e (next_seq s)) now policy)
      × (fail_gate manifests now s ≡ none)
pass_gate-EndsIn manifests s e now policy room h =
    let (in_soak, ends) = pass_gate-handle s e (next_seq s) now policy h in
    (
      numbered_in_soak s e now policy converged in_soak
          (fires_numbered manifests s e (next_seq s) now (inl h)) room ends,
      gates_apart manifests s e now h,
    )

-- Whenever the fail-gate fires for a record, the event that it makes, numbered by the agent, is
-- accepted and leaves the record failed, as long as the numbers of u64 are not used up.
pub fail_gate-EndsIn :
    (manifests : Option SignedManifestSet) (s : HostRolloutState) (e : Event) (now : Time)
    (policy : RolloutPolicy)
    → s.last_event_seq + 1 < 2 ^ 64
    → fail_gate manifests now s ≡ some e
    → EndsIn failed (step s (with_seq e (next_seq s)) now policy)
fail_gate-EndsIn manifests s e now policy room h =
    let (in_soak, ends) = fail_gate-handle manifests s e (next_seq s) now policy h in
    numbered_in_soak s e now policy failed in_soak
      (fires_numbered manifests s e (next_seq s) now (inr h)) room ends
