-- ===== src/Planner/Gates/ChannelEdges.antt =====
-- crates/nixfleet-reconciler/src/planner_gates/channel_edges.rs
use nixfleet.Prelude.{
  Bool, true, false, not, Option, none, some, List, [], ◌∷◌, if◌then◌else◌, is_some, string_eq,
}
use nixfleet.Prelude.HashMap.{get}
use nixfleet.Proto.{rollout_id_eq, ChannelId, ChannelEdge, new}
use nixfleet.Planner.Types.{FleetState, SignedManifestSet, GateBlock}

unfoldable pub predecessor_active : FleetState → SignedManifestSet → ChannelId → Bool
unfolding new
predecessor_active fleet_state manifests predecessor = elim (get manifests.rollouts predecessor) [
  | none ↦ false
  | some rollout_manifest ↦
      elim (get fleet_state.rollouts (new predecessor rollout_manifest.inner.channel_ref)) [
        | none ↦ true
        | some summary ↦ not (is_some summary.terminal_at)
      ]
]

-- The loop over the edges, `filter` included.
unfoldable pub check_edges :
    FleetState → SignedManifestSet → ChannelId → List ChannelEdge → Option GateBlock
unfolding predecessor_active
check_edges fleet_state manifests successor [] = none
check_edges fleet_state manifests successor (edge ∷ edges) =
    let rest = check_edges fleet_state manifests successor edges in
    if string_eq.beq edge.gated successor
    then if predecessor_active fleet_state manifests edge.gates
      then some (GateBlock.channel_edges edge.gates)
      else rest
    else rest

unfoldable pub check : FleetState → SignedManifestSet → ChannelId → Option GateBlock
unfolding check_edges
check fleet_state manifests successor =
    check_edges fleet_state manifests successor manifests.fleet.inner.channel_edges
