-- ===== src/Planner/Gates/HostEdges.antt =====
-- crates/nixfleet-reconciler/src/planner_gates/host_edges.rs
use nixfleet.Prelude.{
  pair_eq, string_eq, Bool, true, false, not, String, Option, none, some, List, [], ◌∷◌,
  if◌then◌else◌, string_eq,
}
use nixfleet.Prelude.HashMap.{get}
use nixfleet.Proto.{rollout_id_eq, HostId, RolloutId, Edge}
use nixfleet.Host.State.{HostState, converged, deferred}
use nixfleet.Planner.Types.{FleetState, SignedManifestSet, GateBlock}

unfoldable pub same_channel : SignedManifestSet → HostId → String → Bool
same_channel manifests gates host_channel = elim (get manifests.fleet.inner.hosts gates) [
  | none ↦ false
  | some h ↦ string_eq.beq h.channel host_channel
]

abbrev pub is_eligible : HostState → Bool
is_eligible converged = true
is_eligible deferred = true
is_eligible _ = false

-- The gating host's state within this rollout allows the gated host to go on.
unfoldable pub ordering_eligible : FleetState → RolloutId → HostId → Bool
ordering_eligible fleet_state rollout_id gates =
    elim (get fleet_state.host_states (rollout_id, gates)) [
      | none ↦ false
      | some s ↦ is_eligible s.state
    ]

-- The loop over the edges, `filter` and `continue` included.
unfoldable pub check_edges :
    FleetState → SignedManifestSet → HostId → String → RolloutId → List Edge → Option GateBlock
unfolding same_channel ordering_eligible
check_edges fleet_state manifests host host_channel rollout_id [] = none
check_edges fleet_state manifests host host_channel rollout_id (edge ∷ edges) =
    let rest = check_edges fleet_state manifests host host_channel rollout_id edges in
    if string_eq.beq edge.gated host
    then if not (same_channel manifests edge.gates host_channel)
      then rest
      else if not (ordering_eligible fleet_state rollout_id edge.gates)
      then some (GateBlock.host_edge edge.gates)
      else rest
    else rest

unfoldable pub check : FleetState → SignedManifestSet → HostId → RolloutId → Option GateBlock
unfolding check_edges
check fleet_state manifests host rollout_id = elim (get manifests.fleet.inner.hosts host) [
  | none ↦ none
  | some h ↦ check_edges fleet_state manifests host h.channel rollout_id manifests.fleet.inner.edges
]
