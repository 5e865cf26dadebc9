-- ===== src/Host/Diagram.antt =====
-- The transition diagram of a host's record (RFC-0005 §3), and the events that each state accepts.
pub mod Verdicts
pub mod Trail
use nixfleet.Prelude.{
  if◌then◌else◌, ℕ, suc, ◌+◌, ◌≤◌, ◌<◌, ◌≡◌, ◌⊎◌, refl, inl, inr, Bool, true, false, Option, none,
  some, List, [], ◌∷◌, ◌++◌, Result, ok, err, arith, Bool-cases, length, String, Result-cases,
}
use nixfleet.Proto.{Time, RolloutPolicy}
use nixfleet.Host.State.{
  HostState, HostRolloutState, pending, activating, deferred, soaking, converged, failed, reverted,
}
use nixfleet.Host.Event.{Event}
use nixfleet.Host.Effect.{Effect, record_transition}
use nixfleet.Host.Error.{Outcome, TransitionError, invariant, illegal}
use nixfleet.Host.Transitions.{
  handle_in, step, terminal_handle, rollback_effects, verify_converged_invariants,
}
use nixfleet.Host.Steps.{step_newer, step_accepted}
use nixfleet.Host.Transitions.Pending
use nixfleet.Host.Transitions.Activating
use nixfleet.Host.Transitions.Deferred
use nixfleet.Host.Transitions.Soaking
use nixfleet.Host.Transitions.Failed
use nixfleet.Host.Run.{absorb, run}

infix 40 ◌⟶◌
pub data ◌⟶◌ : HostState → HostState → Type 0 where
  ack : pending ⟶ activating
  switch : activating ⟶ soaking
  stage : activating ⟶ deferred
  break_switch : activating ⟶ failed
  reboot : deferred ⟶ soaking
  break_boot : deferred ⟶ failed
  converge : soaking ⟶ converged
  break_soak : soaking ⟶ failed
  roll_back : failed ⟶ reverted

pub ruleset edges =
    (ack, switch, stage, break_switch, reboot, break_boot, converge, break_soak, roll_back)

-- The legal pairs of state and event, as a table.
unfoldable pub legal : HostState → Event → Bool
legal pending (Event.local_activate _ _ _ _ _) = true
legal pending (Event.remote_dispatch_ack _ _ _) = true
legal activating (Event.local_activation_started _ _ _) = true
legal activating (Event.remote_activation_started _ _ _) = true
legal activating (Event.local_activation_completed _ _ _ _) = true
legal activating (Event.remote_activation_completed _ _ _ _) = true
legal activating (Event.local_activation_deferred _ _ _) = true
legal activating (Event.remote_activation_deferred _ _ _) = true
legal activating (Event.local_activation_failed _ _ _ _) = true
legal activating (Event.remote_activation_failed _ _ _ _) = true
legal deferred (Event.local_activation_completed _ _ _ _) = true
legal deferred (Event.remote_activation_completed _ _ _ _) = true
legal deferred (Event.local_activation_failed _ _ _ _) = true
legal deferred (Event.remote_activation_failed _ _ _ _) = true
legal soaking (Event.local_probe_topology_declared _ _ _) = true
legal soaking (Event.remote_probe_topology_declared _ _ _) = true
legal soaking (Event.local_probe_observed_first _ _ _ _) = true
legal soaking (Event.remote_probe_observed_first _ _ _ _) = true
legal soaking (Event.local_probe_result _ _ _ _ _ _ _) = true
legal soaking (Event.remote_probe_result _ _ _ _ _ _ _) = true
legal soaking (Event.local_probe_failure_first _ _ _ _) = true
legal soaking (Event.remote_probe_failure_first _ _ _ _) = true
legal soaking (Event.local_sustained_failure_crossed _ _ _ _ _) = true
legal soaking (Event.remote_failed _ _ _ _ _) = true
legal soaking (Event.local_converged_reached _ _ _) = true
legal soaking (Event.remote_converged _ _ _) = true
legal failed (Event.local_rollback_completed _ _ _ _) = true
legal failed (Event.remote_rollback_complete _ _ _ _) = true
legal _ _ = false

-- What a claim of convergence carries; every other event carries none.
unfoldable pub claims_converged : Event → Option (String × Time)
claims_converged (Event.local_converged_reached at closure _) = some (closure, at)
claims_converged (Event.remote_converged at closure _) = some (closure, at)
claims_converged _ = none

-- The error that an outcome is refused with, if it is.
abbrev pub refusal {ℓ κ} : {A : Type ℓ} {E : Type κ} → Result A E → Option E
refusal (ok _) = none
refusal (err x) = some x

-- The error with which the claim of convergence that an event may make is refused, if it is.
unfoldable pub claim_refusal : HostRolloutState → Event → Option TransitionError
unfolding claims_converged
claim_refusal s e = elim (claims_converged e) [
  | none ↦ none
  | some (closure, at) ↦ refusal (verify_converged_invariants s closure at)
]

pub handle_in-refusal :
    (h : HostState) (s : HostRolloutState) (e : Event) (now : Time) (policy : RolloutPolicy)
    → refusal (handle_in h s e now policy)
      ≡ (if legal h e then claim_refusal s e else some (illegal s e))
unfolding handle_in Pending.handle Activating.handle Deferred.handle Soaking.handle Failed.handle
    terminal_handle legal claim_refusal
handle_in-refusal pending s e now policy = ground arith
handle_in-refusal activating s e now policy = ground arith
handle_in-refusal deferred s e now policy = ground arith
handle_in-refusal soaking s e now policy = ground arith
handle_in-refusal converged s e now policy = ground arith
handle_in-refusal failed s e now policy = ground arith
handle_in-refusal reverted s e now policy = ground arith

-- The transitions that a list of effects records, in order.
unfoldable pub recorded : List Effect → List (HostState × HostState)
recorded [] = []
recorded (record_transition _ _ from to _ ∷ fx) = (from, to) ∷ recorded fx
recorded (_ ∷ fx) = recorded fx

pub handle_in-⟶ :
    (h : HostState) (s : HostRolloutState) (e : Event) (now : Time) (policy : RolloutPolicy)
    {s' : HostRolloutState} {fx : List Effect}
    → s.state ≡ h
    → handle_in h s e now policy ≡ ok (s', fx)
    → ((h ⟶ s'.state) × (recorded fx ≡ (h, s'.state) ∷ [])) ⊎ ((s'.state ≡ h) × (recorded fx ≡ []))
unfolding handle_in Pending.handle Activating.handle Deferred.handle Soaking.handle Failed.handle
    terminal_handle recorded rollback_effects
handle_in-⟶ pending s e now policy q h = grind (arith, edges)
handle_in-⟶ activating s e now policy q h = grind (arith, edges)
handle_in-⟶ deferred s e now policy q h = grind (arith, edges)
handle_in-⟶ soaking s e now policy q h = grind (arith, edges)
handle_in-⟶ converged s e now policy q h = grind (arith, edges)
handle_in-⟶ failed s e now policy q h = grind (arith, edges)
handle_in-⟶ reverted s e now policy q h = grind (arith, edges)
