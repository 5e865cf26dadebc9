-- ===== src/Host/Rehydration.antt =====
-- crates/nixfleet-state-machine/src/rehydration.rs: effects after a snapshot from the control plane.
use nixfleet.Prelude.{List, [], ◌∷◌}
use nixfleet.Host.State.{
  HostState, HostRolloutState, pending, activating, deferred, soaking, converged, failed, reverted,
}
use nixfleet.Host.Effect.{Effect, local_reset_probe_cache}

rehydrate_in : HostState → HostRolloutState → List Effect
rehydrate_in pending s = []
rehydrate_in activating s = local_reset_probe_cache s.rollout_id ∷ []
rehydrate_in deferred s = local_reset_probe_cache s.rollout_id ∷ []
rehydrate_in soaking s = local_reset_probe_cache s.rollout_id ∷ []
rehydrate_in converged s = local_reset_probe_cache s.rollout_id ∷ []
rehydrate_in failed s = local_reset_probe_cache s.rollout_id ∷ []
rehydrate_in reverted s = local_reset_probe_cache s.rollout_id ∷ []

unfoldable pub rehydration_effects : HostRolloutState → List Effect
unfolding rehydrate_in
rehydration_effects s = rehydrate_in s.state s
