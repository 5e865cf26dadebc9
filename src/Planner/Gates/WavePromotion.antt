-- ===== src/Planner/Gates/WavePromotion.antt =====
-- crates/nixfleet-reconciler/src/planner_gates/wave_promotion.rs
use nixfleet.Prelude.{
  ℕ, ◌%◌, ◌^◌, String, Option, none, some, List, [], ◌∷◌, if◌then◌else◌, contains, string_eq, ltb,
  position,
}
use nixfleet.Prelude.HashMap.{get}
use nixfleet.Proto.{rollout_id_eq, HostId, RolloutId, Wave}
use nixfleet.Planner.Types.{FleetState, SignedManifestSet, GateBlock}

-- `waves.iter().position(|w| w.hosts.iter().any(|h| h == host))`
unfoldable pub wave_of : List Wave → HostId → Option ℕ
unfolding position contains
wave_of waves host = position (λ (w : Wave). contains w.hosts host) waves

-- `rollouts.get(rollout_id).map(|r| r.current_wave).unwrap_or(0)`
unfoldable pub cursor : FleetState → RolloutId → ℕ
cursor fleet_state rollout_id = elim (get fleet_state.rollouts rollout_id) [
  | none ↦ 0
  | some r ↦ r.current_wave
]

-- The waves of the host's channel are declared.
unfoldable pub check_declared :
    FleetState → List Wave → String → HostId → RolloutId → Option GateBlock
unfolding wave_of cursor
check_declared fleet_state waves channel host rollout_id = elim (wave_of waves host) [
  | none ↦ some (GateBlock.host_unstaged channel)
  | some i ↦
      if ltb (cursor fleet_state rollout_id) (i % 2 ^ 32)
      then some (GateBlock.wave_promotion (i % 2 ^ 32) (cursor fleet_state rollout_id))
      else none
]

unfoldable pub check : FleetState → SignedManifestSet → HostId → RolloutId → Option GateBlock
unfolding check_declared
check fleet_state manifests host rollout_id = elim (get manifests.fleet.inner.hosts host) [
  | none ↦ none
  | some h ↦ elim (get manifests.fleet.inner.waves h.channel) [
    | none ↦ none
    | some [] ↦ none
    | some (w ∷ ws) ↦ check_declared fleet_state (w ∷ ws) h.channel host rollout_id
  ]
]
