-- ===== src/Host/Invariant.antt =====
-- What holds of a host's record between two events of the reducer (transitions/*.rs).
use nixfleet.Prelude.{
  ◌≡◌, refl, inl, inr, true, false, Option, none, some, List, [], ◌∷◌, ok, String, arith, is_some,
  any, string_eq, Result-cases,
}
use nixfleet.Prelude.HashMap.{values}
use nixfleet.Proto.{Time, RolloutPolicy, RolloutId, ClosureHash}
use nixfleet.Host.State.{
  HostState, HostRolloutState, ProbeRecord, pending, activating, deferred, soaking, converged,
  failed, reverted, new_pending,
}
use nixfleet.Host.Event.{Event}
use nixfleet.Host.Effect.{Effect}
use nixfleet.Host.Transitions.{
  handle_in, step, terminal_handle, is_blocking, verify_converged_invariants, rollback_effects,
}
use nixfleet.Host.Transitions.Pending
use nixfleet.Host.Transitions.Activating
use nixfleet.Host.Transitions.Deferred
use nixfleet.Host.Transitions.Soaking
use nixfleet.Host.Transitions.Failed
use nixfleet.Host.Run.{absorb, run}
use nixfleet.Host.Steps.{step_accepted}
use nixfleet.Host.Convergence.{Reached}

-- The host acknowledged the dispatch, and said which closure it ran then.
abbrev Acked : HostRolloutState → Type 0
Acked s = (is_some s.dispatch_acked_at ≡ true) × (is_some s.current_closure_at_dispatch ≡ true)

-- The host switched, and said which closure it runs.
abbrev Switched : HostRolloutState → Type 0
Switched s = (is_some s.activation_completed_at ≡ true) × (is_some s.current_closure ≡ true)

-- The recorded time of convergence is there, and not before the soak was over.
abbrev SoakedBy : HostRolloutState → Option Time → Type 0
SoakedBy s none = ⊥
SoakedBy s (some at) = Reached s.soak_due_at at

-- What a record in the given state holds.
abbrev Holds : HostState → HostRolloutState → Type 0
Holds pending s =
    (s.dispatch_acked_at ≡ none)
    × (s.activation_completed_at ≡ none)
    × (s.failed_at ≡ none)
    × (s.converged_at ≡ none)
    × (s.reverted_at ≡ none)
Holds activating s =
    Acked s
    × (s.activation_completed_at ≡ none)
    × (s.failed_at ≡ none)
    × (s.converged_at ≡ none)
    × (s.reverted_at ≡ none)
Holds deferred s =
    Acked s
    × (s.activation_completed_at ≡ none)
    × (s.failed_at ≡ none)
    × (s.converged_at ≡ none)
    × (s.reverted_at ≡ none)
Holds soaking s =
    Acked s × Switched s × (s.failed_at ≡ none) × (s.converged_at ≡ none) × (s.reverted_at ≡ none)
Holds converged s =
    Acked s
    × Switched s
    × (s.failed_at ≡ none)
    × (s.reverted_at ≡ none)
    × SoakedBy s s.converged_at
    × (s.current_closure ≡ some s.target_closure)
    × (any (λ (p : ProbeRecord). is_blocking p.mode p.status) (values s.probes) ≡ false)
Holds failed s =
    Acked s × (is_some s.failed_at ≡ true) × (s.converged_at ≡ none) × (s.reverted_at ≡ none)
Holds reverted s =
    Acked s
    × (is_some s.failed_at ≡ true)
    × (s.converged_at ≡ none)
    × (is_some s.reverted_at ≡ true)
    × (is_some s.reverted_to ≡ true)
    × (s.current_closure ≡ s.reverted_to)

abbrev pub WellFormed : HostRolloutState → Type 0
WellFormed s = Holds s.state s

handle_in-WellFormed :
    (h : HostState) (s : HostRolloutState) (e : Event) (now : Time) (policy : RolloutPolicy)
    {s' : HostRolloutState} {fx : List Effect}
    → s.state ≡ h
    → Holds h s
    → handle_in h s e now policy ≡ ok (s', fx)
    → Holds s'.state s'
unfolding handle_in Pending.handle Activating.handle Deferred.handle Soaking.handle Failed.handle
    terminal_handle rollback_effects verify_converged_invariants
handle_in-WellFormed pending s e now policy q w h = ground arith
handle_in-WellFormed activating s e now policy q w h = ground arith
handle_in-WellFormed deferred s e now policy q w h = ground arith
handle_in-WellFormed soaking s (Event.local_converged_reached _ closure _) now policy q w h =
    ground (arith, string_eq.beq_iff closure s.target_closure)
handle_in-WellFormed soaking s (Event.remote_converged _ closure _) now policy q w h =
    ground (arith, string_eq.beq_iff closure s.target_closure)
handle_in-WellFormed soaking s e now policy q w h = ground arith
handle_in-WellFormed converged s e now policy q w h = ground arith
handle_in-WellFormed failed s e now policy q w h = ground arith
handle_in-WellFormed reverted s e now policy q w h = ground arith

absorb-WellFormed :
    (policy : RolloutPolicy) (s : HostRolloutState) (e : Event) (now : Time)
    → WellFormed s
    → WellFormed (absorb policy s e now).0
unfolding absorb
absorb-WellFormed policy s e now w = elim (Result-cases (step s e now policy)) [
  | inl ((t, fx), h) ↦
      rw (h, absorb)
        (handle_in-WellFormed s.state s e now policy refl w (step_accepted s e now policy h).1)
  | inr (x, h) ↦ rw (h, absorb) w
]

-- A well-formed record stays well-formed through any list of events: past Pending the host has
-- acknowledged the dispatch; in Soaking and Converged it has switched; a converged record runs its
-- target, was declared converged no sooner than its soak was over, and has no failing enforced
-- probe; a failed one has the time of its failure; a reverted one runs the closure it reverted to;
-- and no record holds the time of an outcome that its state excludes.
pub run-WellFormed :
    (policy : RolloutPolicy) (s : HostRolloutState) (es : List (Event × Time))
    → WellFormed s
    → WellFormed (run policy s es).0
unfolding run
run-WellFormed policy s [] w = w
run-WellFormed policy s ((e, now) ∷ es) w =
    run-WellFormed policy (absorb policy s e now).0 es (absorb-WellFormed policy s e now w)

new_pending-WellFormed :
    (id : RolloutId) (hostname channel : String) (target : ClosureHash) (at due : Time)
    → WellFormed (new_pending id hostname channel target at due)
unfolding new_pending
new_pending-WellFormed id hostname channel target at due = ground arith

-- Every record that grows from a fresh one is well-formed: `run-WellFormed` from `new_pending`.
pub run-new_pending-WellFormed :
    (id : RolloutId) (hostname channel : String) (target : ClosureHash) (at due : Time)
    (policy : RolloutPolicy) (es : List (Event × Time))
    → WellFormed (run policy (new_pending id hostname channel target at due) es).0
run-new_pending-WellFormed id hostname channel target at due policy es =
    run-WellFormed policy _ es (new_pending-WellFormed id hostname channel target at due)
