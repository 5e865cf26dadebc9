-- ===== src/Host/Convergence.antt =====
-- When a claim of convergence is verified (transitions/soaking.rs), and what the probe map holds.
use nixfleet.Prelude.{
  if◌then◌else◌, String, ◌≡◌, ◌≤◌, ◌↔◌, refl, inl, inr, false, Option, none, some, List, [], ◌∷◌,
  ok, arith, All, any, string_eq, Option-cases,
}
use nixfleet.Prelude.HashMap.{HashMap, get, values, get-insert}
use nixfleet.Proto.{Time, RolloutPolicy, ClosureHash}
use nixfleet.Host.State.{
  HostState, HostRolloutState, ProbeRecord, ProbeMode, ProbeStatus, pass, fail, enforce, pending,
  activating, deferred, soaking, converged, failed, reverted,
}
use nixfleet.Host.Event.{Event}
use nixfleet.Host.Effect.{Effect}
use nixfleet.Host.Transitions.{
  handle_in, step, is_blocking, verify_converged_invariants, update_probe, terminal_handle,
}
use nixfleet.Host.Transitions.Pending
use nixfleet.Host.Transitions.Activating
use nixfleet.Host.Transitions.Deferred
use nixfleet.Host.Transitions.Soaking
use nixfleet.Host.Transitions.Failed
use nixfleet.Host.Steps.{step_accepted}
use nixfleet.Host.Diagram.{claims_converged}

-- The time `at` has reached the due time, if there is one.
abbrev pub Reached : Option Time → Time → Type 0
Reached none at = Unit
Reached (some due) at = due ≤ at

-- The three invariants of RFC-0005 §4.2.
pub record MayConverge (s : HostRolloutState) (closure : ClosureHash) (at : Time) : Type 0 where
  pub on_target : closure ≡ s.target_closure
  pub soaked : Reached s.soak_due_at at
  pub healthy : All (λ (p : ProbeRecord). p.mode ≡ enforce → p.status ≡ pass) (values s.probes)

pub healthy_iff :
    (ps : List ProbeRecord)
    → (any (λ (p : ProbeRecord). is_blocking p.mode p.status) ps ≡ false)
      ↔ All (λ (p : ProbeRecord). p.mode ≡ enforce → p.status ≡ pass) ps
unfolding any
healthy_iff [] = (λ h. tt, λ h. refl)
healthy_iff (p ∷ ps) = ground (arith, healthy_iff ps)

-- The check of a claim of convergence passes exactly if the claimed closure is the target, the soak
-- time that is set has been reached, and every probe in enforce mode passes.
pub verify_converged_invariants_iff :
    (s : HostRolloutState) (closure : ClosureHash) (at : Time)
    → (verify_converged_invariants s closure at ≡ ok tt) ↔ MayConverge s closure at
unfolding verify_converged_invariants
verify_converged_invariants_iff s closure at = (
  λ h. record {
    on_target = ground (arith, string_eq.beq_iff closure s.target_closure);
    soaked = ground (arith, string_eq.beq_iff closure s.target_closure);
    healthy =
        ground (arith, healthy_iff (values s.probes), string_eq.beq_iff closure s.target_closure);
  },
  λ m. ground (
    arith,
    healthy_iff (values s.probes),
    string_eq.beq_iff closure s.target_closure,
    m.on_target,
    m.soaked,
    m.healthy,
  ),
)

-- The claim is there and verified, and the new record holds its time and its closure.
abbrev VerifiedClaim : HostRolloutState → HostRolloutState → Option (ClosureHash × Time) → Type 0
VerifiedClaim s s' none = ⊥
VerifiedClaim s s' (some (closure, at)) =
    (verify_converged_invariants s closure at ≡ ok tt)
    × (s'.converged_at ≡ some at)
    × (s'.current_closure ≡ some closure)

handle_in-VerifiedClaim :
    (h : HostState) (s : HostRolloutState) (e : Event) (now : Time) (policy : RolloutPolicy)
    {s' : HostRolloutState} {fx : List Effect}
    → s.state ≡ h
    → handle_in h s e now policy ≡ ok (s', fx)
    → s'.state ≡ converged
    → (h ≡ soaking) × VerifiedClaim s s' (claims_converged e)
unfolding handle_in Pending.handle Activating.handle Deferred.handle Soaking.handle Failed.handle
    terminal_handle claims_converged
handle_in-VerifiedClaim pending s e now policy q h c = ground arith
handle_in-VerifiedClaim activating s e now policy q h c = ground arith
handle_in-VerifiedClaim deferred s e now policy q h c = ground arith
handle_in-VerifiedClaim soaking s e now policy q h c = ground arith
handle_in-VerifiedClaim converged s e now policy q h c = ground arith
handle_in-VerifiedClaim failed s e now policy q h c = ground arith
handle_in-VerifiedClaim reverted s e now policy q h c = ground arith

-- An accepted event that leaves a record converged arrived in the Soaking state and claimed
-- convergence on the record's target, at a time at which the soak is over, with every enforced probe
-- passing; the record takes that time and that closure.
pub step_to_converged :
    (s : HostRolloutState) (e : Event) (now : Time) (policy : RolloutPolicy) {s' : HostRolloutState}
    {fx : List Effect}
    → step s e now policy ≡ ok (s', fx)
    → s'.state ≡ converged
    → (s.state ≡ soaking)
      × (at : Time) × (claims_converged e ≡ some (s.target_closure, at))
      × MayConverge s s.target_closure at
      × (s'.converged_at ≡ some at)
      × (s'.current_closure ≡ some s.target_closure)
step_to_converged s e now policy h c =
    let (in_soak, v) =
      handle_in-VerifiedClaim s.state s e now policy refl (step_accepted s e now policy h).1 c in
    elim (Option-cases (claims_converged e)) [
      | inl q ↦ elim (rw q at v) [ ]
      | inr ((closure, at), q) ↦
          let (passed, stamped, taken) = rw q at v in
          let m = (verify_converged_invariants_iff s closure at).0 passed in
          (in_soak, at, rw m.on_target at q, rw m.on_target at m, stamped, rw m.on_target at taken)
    ]

-- The entry that a result leaves, given the entry that was there.
abbrev pub result_entry :
    Option ProbeRecord → ProbeMode → ProbeStatus → Time → Option String → ProbeRecord
result_entry prior mode pass at reason = record {
  status = pass;
  mode = mode;
  last_observed_at = at;
  last_pass_at = some at;
  failure_reason = none;
}
result_entry prior mode fail at reason = record {
  status = fail;
  mode = mode;
  last_observed_at = at;
  last_pass_at = elim prior [ none ↦ none | some p ↦ p.last_pass_at ];
  failure_reason = reason;
}

-- After a probe's result, that probe's entry has the result's mode and status, was last observed at
-- its time, last passed then if it passed and when it did before if it did not, and holds the reason
-- of a failure only; every other probe's entry is as it was.
pub get-update_probe :
    (ps : HashMap String ProbeRecord) (name other : String) (mode : ProbeMode)
    (status : ProbeStatus) (at : Time) (reason : Option String)
    → get (update_probe ps name mode status at reason) other ≡ (
        if string_eq.beq name other
        then some (result_entry (get ps name) mode status at reason)
        else get ps other)
unfolding update_probe
get-update_probe ps name other mode pass at reason = rw get-insert refl
get-update_probe ps name other mode fail at reason =
    rw get-insert (elim (Option-cases (get ps name)) [ inl q ↦ rw q refl | inr (p, q) ↦ rw q refl ])
