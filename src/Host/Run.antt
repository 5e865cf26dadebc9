-- ===== src/Host/Run.antt =====
-- The reducers' loop over a stream of events for one record: an event that `step` refuses is logged
-- and dropped, and the record stays as it was (runtime/reducer.rs of the control plane and of the
-- agent).
pub mod Delivery
use nixfleet.Prelude.{
  ℕ, ◌≡◌, ◌≤◌, refl, inl, inr, List, [], ◌∷◌, ◌++◌, Result, ok, err, arith, Result-cases,
}
use nixfleet.Proto.{Time, RolloutPolicy}
use nixfleet.Host.State.{HostRolloutState}
use nixfleet.Host.Event.{Event, seq}
use nixfleet.Host.Effect.{Effect}
use nixfleet.Host.Transitions.{step}
use nixfleet.Host.Steps.{step_accepted, step_stale}

-- `match step(…) { Ok(out) => out, Err(_) => return }`
unfoldable pub absorb :
    RolloutPolicy → HostRolloutState → Event → Time → HostRolloutState × List Effect
absorb policy s e now = elim (step s e now policy) [ ok (s', fx) ↦ (s', fx) | err _ ↦ (s, []) ]

unfoldable pub run :
    RolloutPolicy → HostRolloutState → List (Event × Time) → HostRolloutState × List Effect
run policy s [] = (s, [])
run policy s ((e, now) ∷ es) =
    let (t, fx) = absorb policy s e now in let (u, gx) = run policy t es in (u, fx ++ gx)
