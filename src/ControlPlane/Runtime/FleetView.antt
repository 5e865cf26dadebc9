-- ===== src/ControlPlane/Runtime/FleetView.antt =====
-- crates/nixfleet-control-plane/src/runtime/reducer.rs: the planner's view of the tables.
use nixfleet.Prelude.{Option, none, some, List, [], ◌∷◌, if◌then◌else◌, string_eq, pair_eq}
use nixfleet.Prelude.HashMap.{HashMap, get, insert}
use nixfleet.Proto.{
  RolloutId, rollout_id_eq, HostId, ChannelId, RolloutPolicy, RolloutManifest, new,
}
use nixfleet.Host.State.{HostRolloutState}
use nixfleet.Planner.Types.{
  SignedManifestSet, FleetState, RolloutSummary, Verified, QuarantineSet, GateBlock,
}
use nixfleet.Planner.Gates.{evaluate_for_dispatch}
use nixfleet.ControlPlane.Io.{Io, Statement}
use nixfleet.ControlPlane.Store.{Db}
use nixfleet.ControlPlane.Store.Rollouts as Rollouts
use nixfleet.ControlPlane.Applier.RolloutEvents.{rollout_row}
use nixfleet.ControlPlane.Store.Records.{all_for_rollout}
use nixfleet.ControlPlane.Store.ProbeFailures.{outstanding_failing_enforce_probes_by_rollout}

unfoldable pub resolve_policy : SignedManifestSet → ChannelId → Option RolloutPolicy
unfolding get
resolve_policy manifests channel = elim (get manifests.fleet.inner.channels channel) [
  | none ↦ none
  | some entry ↦ get manifests.fleet.inner.rollout_policies entry.rollout_policy
]

-- `for row in rows { host_states.insert(…) }`
unfoldable pub insert_rows :
    HashMap (RolloutId × HostId) HostRolloutState
    → RolloutId
    → List HostRolloutState
    → HashMap (RolloutId × HostId) HostRolloutState
unfolding insert
insert_rows states id [] = states
insert_rows states id (row ∷ rows) = insert_rows (insert states (id, row.hostname) row) id rows

-- The summary of a rollout that has a row.
abbrev pub summary_of :
    RolloutId → ChannelId → RolloutManifest → Rollouts.RolloutRow → RolloutSummary
summary_of id channel manifest row = record {
  rollout_id = id;
  channel = channel;
  target_ref = manifest.channel_ref;
  opened_at = row.opened_at;
  terminal_at = row.terminal_at;
  current_wave = row.current_wave;
  budgets = manifest.disruption_budgets;
}

-- `if let Ok(Some(row)) = …`
unfoldable pub with_summary :
    HashMap RolloutId RolloutSummary
    → RolloutId
    → ChannelId
    → RolloutManifest
    → Option Rollouts.RolloutRow
    → HashMap RolloutId RolloutSummary
unfolding insert
with_summary rollouts id channel manifest none = rollouts
with_summary rollouts id channel manifest (some row) =
    insert rollouts id (summary_of id channel manifest row)

module _ (io : Io) (db : Db) where
  -- The loop over the manifests; a failed read of the records ends it.
  unfoldable pub collect_channels :
      HashMap ChannelId (Verified RolloutManifest)
      → HashMap (RolloutId × HostId) HostRolloutState
      → HashMap RolloutId RolloutSummary
      → Option (HashMap (RolloutId × HostId) HostRolloutState × HashMap RolloutId RolloutSummary)
  unfolding new all_for_rollout insert_rows rollout_row with_summary
  collect_channels [] states rollouts = some (states, rollouts)
  collect_channels ((channel, vm) ∷ rest) states rollouts =
      let id = new channel vm.inner.channel_ref in
      let states1 = insert_rows states id (all_for_rollout db.host_rollout_records id) in
      let rollouts1 = with_summary rollouts id channel vm.inner (rollout_row io db id) in
      let later = collect_channels rest states1 rollouts1 in
      if io.succeeds (Statement.all_for_rollout id) then later else none

  unfoldable pub build_fleet_state : SignedManifestSet → Option FleetState
  unfolding collect_channels outstanding_failing_enforce_probes_by_rollout
  build_fleet_state manifests = elim (collect_channels manifests.rollouts [] []) [
    | none ↦ none
    | some (host_states, rollouts) ↦ some (record {
      host_states = host_states;
      rollouts = rollouts;
      outstanding_failing_enforce_probes =
          if io.succeeds Statement.outstanding_failures
          then outstanding_failing_enforce_probes_by_rollout db.probe_failures
          else [];
    })
  ]

  -- The gate that holds a record, if one does; the text of it only goes to the log.
  unfoldable pub evaluate_synth_gates :
      SignedManifestSet → QuarantineSet → HostRolloutState → Option GateBlock
  unfolding build_fleet_state evaluate_for_dispatch
  evaluate_synth_gates manifests quarantines row = elim (build_fleet_state manifests) [
    | none ↦ none
    | some fleet_state ↦
        evaluate_for_dispatch fleet_state manifests quarantines row.rollout_id row.hostname
          row.target_closure row.channel []
  ]
