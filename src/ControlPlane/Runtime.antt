-- ===== src/ControlPlane/Runtime.antt =====
-- crates/nixfleet-control-plane/src/runtime/reducer.rs and mod.rs: the task that owns the control
-- plane's state. The clock's reads within one input are one instant, and the log lines are left out.
pub mod FleetView
pub mod HostEvents
pub mod Heartbeats
use nixfleet.Prelude.{
  ℕ, String, Bool, true, false, not, Option, none, some, List, [], ◌∷◌, if◌then◌else◌, string_eq,
}
use nixfleet.Prelude.HashMap.{HashMap, insert}
use nixfleet.Proto.{Time, RolloutId, HostId, ClosureHash}
use nixfleet.Proto.Snapshot.{HostRolloutSnapshot}
use nixfleet.Host.Event.{Event}
use nixfleet.Planner.Types.{SignedManifestSet, FleetState, RolloutSummary}
use nixfleet.Planner.Plan.{plan_next}
use nixfleet.ControlPlane.Io.{Io, Statement}
use nixfleet.ControlPlane.Store.{Db}
use nixfleet.ControlPlane.Store.Rollouts as Rollouts
use nixfleet.ControlPlane.Waves.{advance_current_waves, bump_of}
use nixfleet.ControlPlane.Applier.{apply_plan_actions}
use FleetView.{build_fleet_state}
use HostEvents.{ReducerState, handle_host_event}
use Heartbeats.{HeartbeatReply, maybe_synthesize_recovery_completion, reply_to}

pub data ReducerInput : Type 0 where
  host_event : (host : HostId) (rollout_id : RolloutId) (event : Event) → ReducerInput
  manifest_set_updated : SignedManifestSet → ReducerInput
  heartbeat_received :
      (host : HostId) (rollout_id : Option RolloutId) (current_closure : Option ClosureHash)
      (at : Time)
      → ReducerInput
  plan_tick : ReducerInput

module _ (io : Io) (now : Time) where
  -- The writes of `advance_current_waves` to the database.
  unfoldable pub write_bumps :
      SignedManifestSet → FleetState → HashMap RolloutId RolloutSummary → Db → Db
  unfolding bump_of Rollouts.set_current_wave
  write_bumps manifests fleet_state [] db = db
  write_bumps manifests fleet_state ((id, summary) ∷ rollouts) db =
      write_bumps manifests fleet_state rollouts
        (elim (bump_of manifests.fleet.inner fleet_state id summary) [
          | none ↦ db
          | some next_wave ↦
              if io.succeeds (Statement.set_current_wave id next_wave)
              then record db { rollouts = Rollouts.set_current_wave db.rollouts id next_wave none }
              else db
        ])

  -- The fleet that is planned on: every cursor that was written is bumped.
  unfoldable pub bumped : SignedManifestSet → FleetState → FleetState
  unfolding advance_current_waves
  bumped manifests fleet_state = record fleet_state {
    rollouts =
        advance_current_waves manifests.fleet.inner fleet_state
          (λ id wave. io.succeeds (Statement.set_current_wave id wave)) fleet_state.rollouts;
  }

  unfoldable pub run_plan : ReducerState → Db → Db
  unfolding build_fleet_state write_bumps bumped plan_next apply_plan_actions
  run_plan rs db = elim rs.manifests [
    | none ↦ db
    | some manifests ↦ elim (build_fleet_state io db manifests) [
      | none ↦ db
      | some fleet_state ↦
          apply_plan_actions io manifests now
            (write_bumps manifests fleet_state fleet_state.rollouts db)
            (plan_next (bumped manifests fleet_state) manifests rs.quarantines now)
    ]
  ]

  -- `if let Some(agent_current) = …`
  unfoldable pub recovered_by : ReducerState → Db → HostId → Option ClosureHash → Time → Db
  unfolding maybe_synthesize_recovery_completion
  recovered_by rs db host none at = db
  recovered_by rs db host (some agent_current) at =
      maybe_synthesize_recovery_completion io now rs db host agent_current at

  unfoldable pub handle_heartbeat :
      ReducerState
      → Db
      → HostId
      → Option RolloutId
      → Option ClosureHash
      → Time
      → (ReducerState × Db) × HeartbeatReply
  unfolding insert recovered_by reply_to
  handle_heartbeat rs db host rollout_id current_closure at =
      let touched = record rs { last_heartbeat_at = insert rs.last_heartbeat_at host at } in
      let recovered = recovered_by touched db host current_closure at in
      ((touched, recovered), reply_to io recovered host rollout_id current_closure)

  unfoldable pub handle_input : ReducerState → Db → ReducerInput → ReducerState × Db
  unfolding handle_host_event run_plan handle_heartbeat
  handle_input rs db (host_event host rollout_id event) =
      (rs, handle_host_event io now rs db host rollout_id event)
  handle_input rs db (manifest_set_updated set) =
      let updated = record rs { manifests = some set } in (updated, run_plan updated db)
  handle_input rs db (heartbeat_received host rollout_id current_closure at) =
      (handle_heartbeat rs db host rollout_id current_closure at).0
  handle_input rs db plan_tick = (rs, run_plan rs db)

-- The state that the task starts with.
abbrev pub initial : ReducerState
initial = record { manifests = none; quarantines = []; last_heartbeat_at = [] }

-- `run`: the inputs of the channel and the ticks, each at its instant and with what SQLite does then.
unfoldable pub run_inputs :
    ReducerState → Db → List ((Io × Time) × ReducerInput) → ReducerState × Db
unfolding handle_input
run_inputs rs db [] = (rs, db)
run_inputs rs db (((io, now), input) ∷ inputs) =
    let (rs1, db1) = handle_input io now rs db input in run_inputs rs1 db1 inputs
