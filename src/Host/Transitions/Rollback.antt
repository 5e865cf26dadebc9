-- ===== src/Host/Transitions/Rollback.antt =====
-- The rollback decision that transitions/activating.rs and transitions/soaking.rs share.
use nixfleet.Prelude.{none, some, List, [], ◌∷◌}
use nixfleet.Proto.{OnHealthFailure, halt, rollback_and_halt}
use nixfleet.Host.State.{HostRolloutState}
use nixfleet.Host.Effect.{Effect, local_fire_rollback_to}

-- The effect pushed under `matches!(policy, RollbackAndHalt) && let Some(prior) = …`.
unfoldable pub rollback_effects : OnHealthFailure → HostRolloutState → List Effect
rollback_effects halt s = []
rollback_effects rollback_and_halt s = elim s.current_closure_at_dispatch [
  | none ↦ []
  | some prior ↦ local_fire_rollback_to s.rollout_id prior ∷ []
]
