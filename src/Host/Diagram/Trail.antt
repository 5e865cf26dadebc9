-- ===== src/Host/Diagram/Trail.antt =====
-- The transitions that a run records are a path through the diagram.
use nixfleet.Prelude.{
  ℕ, suc, ◌+◌, ◌≡◌, ◌≤◌, refl, sym, subst, inl, inr, List, [], ◌∷◌, ◌++◌, arith, length,
  Result-cases,
}
use nixfleet.Proto.{Time, RolloutPolicy}
use nixfleet.Host.State.{
  HostState, HostRolloutState, pending, activating, deferred, soaking, converged, failed, reverted,
}
use nixfleet.Host.Event.{Event}
use nixfleet.Host.Effect.{Effect}
use nixfleet.Host.Transitions.{step}
use nixfleet.Host.Steps.{step_accepted}
use nixfleet.Host.Run.{absorb, run}
use nixfleet.Host.Diagram.{
  ◌⟶◌, recorded, handle_in-⟶, ack, switch, stage, break_switch, reboot, break_boot, converge,
  break_soak, roll_back,
}

-- A path through the diagram, from a state to a state, as the pairs of its edges.
abbrev pub Trail : HostState → List (HostState × HostState) → HostState → Type 0
Trail h [] k = h ≡ k
Trail h ((a, b) ∷ xs) k = (a ≡ h) × (a ⟶ b) × Trail b xs k

-- How far a state is from `Pending`, at most.
abbrev rank : HostState → ℕ
rank pending = 0
rank activating = 1
rank deferred = 2
rank soaking = 3
rank converged = 4
rank failed = 4
rank reverted = 5

rank-⟶ : {h k : HostState} → h ⟶ k → suc (rank h) ≤ rank k
rank-⟶ ack = omega arith
rank-⟶ switch = omega arith
rank-⟶ stage = omega arith
rank-⟶ break_switch = omega arith
rank-⟶ reboot = omega arith
rank-⟶ break_boot = omega arith
rank-⟶ converge = omega arith
rank-⟶ break_soak = omega arith
rank-⟶ roll_back = omega arith

rank_bound : (h : HostState) → rank h ≤ 5
rank_bound h = ground arith

length-Trail :
    (xs : List (HostState × HostState)) (h k : HostState)
    → Trail h xs k
    → rank h + length xs ≤ rank k
length-Trail [] h k t = ground arith
length-Trail ((a, b) ∷ xs) h k (q, edge, rest) =
    let step_up : suc (rank h) ≤ rank b = subst (λ x. suc (rank x) ≤ rank b) q (rank-⟶ edge) in
    omega (arith, step_up, length-Trail xs b k rest)

recorded-append : (fx gx : List Effect) → recorded (fx ++ gx) ≡ recorded fx ++ recorded gx
unfolding recorded
recorded-append [] gx = refl
recorded-append (f ∷ fx) gx = ground (arith, recorded-append fx gx)

Trail-append :
    (xs ys : List (HostState × HostState)) (h k l : HostState)
    → Trail h xs k
    → Trail k ys l
    → Trail h (xs ++ ys) l
Trail-append [] ys h k l t u = subst (λ x. Trail x ys l) (sym t) u
Trail-append ((a, b) ∷ xs) ys h k l (q, edge, t) u = (q, edge, Trail-append xs ys b k l t u)

absorb-Trail :
    (policy : RolloutPolicy) (s : HostRolloutState) (e : Event) (now : Time)
    → Trail s.state (recorded (absorb policy s e now).1) (absorb policy s e now).0.state
unfolding absorb recorded
absorb-Trail policy s e now = elim (Result-cases (step s e now policy)) [
  | inl ((t, fx), h) ↦
      rw (h, absorb)
        (elim (handle_in-⟶ s.state s e now policy refl (step_accepted s e now policy h).1) [
          | inl (edge, one) ↦ rw one (refl, edge, refl)
          | inr (same, nothing) ↦ rw nothing (sym same)
        ])
  | inr (x, h) ↦ rw (h, absorb) refl
]

run-Trail_path :
    (policy : RolloutPolicy) (s : HostRolloutState) (es : List (Event × Time))
    → Trail s.state (recorded (run policy s es).1) (run policy s es).0.state
unfolding run recorded
run-Trail_path policy s [] = refl
run-Trail_path policy s ((e, now) ∷ es) = rw recorded-append (
    Trail-append (recorded (absorb policy s e now).1) _ s.state (absorb policy s e now).0.state _
      (absorb-Trail policy s e now) (run-Trail_path policy (absorb policy s e now).0 es))

-- The transitions that a run records, whatever the events, are a path through the diagram from the
-- record's first state to its last, with at most five edges.
pub run-Trail :
    (policy : RolloutPolicy) (s : HostRolloutState) (es : List (Event × Time))
    → Trail s.state (recorded (run policy s es).1) (run policy s es).0.state
      × (length (recorded (run policy s es).1) ≤ 5)
run-Trail policy s es =
    let path = run-Trail_path policy s es in
    (
      path,
      omega (
        arith,
        length-Trail (recorded (run policy s es).1) s.state (run policy s es).0.state path,
        rank_bound (run policy s es).0.state,
      ),
    )
