-- ===== src/ControlPlane/Runtime/HostEvents.antt =====
-- crates/nixfleet-control-plane/src/runtime/reducer.rs: `handle_host_event`.
use nixfleet.Prelude.{
  String, Bool, true, false, not, ◌&&◌, Option, none, some, List, ok, err, leb, all, is_empty,
  if◌then◌else◌, string_eq,
}
use nixfleet.Prelude.HashMap.{HashMap}
use nixfleet.Proto.{Time, RolloutId, HostId}
use nixfleet.Host.State.{HostState, HostRolloutState, converged}
use nixfleet.Host.Event.{Event, seq}
use nixfleet.Host.Effect.{Effect}
use nixfleet.Host.Transitions.{step}
use nixfleet.Rollout.Event.{host_state_changed, rollout_terminal}
use nixfleet.Planner.Types.{SignedManifestSet, QuarantineSet}
use nixfleet.ControlPlane.Io.{Io, Statement}
use nixfleet.ControlPlane.Payload.{host_state_str}
use nixfleet.ControlPlane.Store.{Db}
use nixfleet.ControlPlane.Store.Records.{upsert, load, all_for_rollout}
use nixfleet.ControlPlane.Applier.{apply_effects}
use nixfleet.ControlPlane.Applier.RolloutEvents.{process_rollout_event}
use nixfleet.ControlPlane.Runtime.FleetView.{resolve_policy}

pub record ReducerState : Type 0 where
  pub manifests : Option SignedManifestSet
  pub quarantines : QuarantineSet
  pub last_heartbeat_at : HashMap String Time

abbrev pub is_converged : HostState → Bool
is_converged converged = true
is_converged _ = false

-- `prior_host_state != next_host_state`
unfoldable pub state_changed : HostState → HostState → Bool
unfolding host_state_str
state_changed a b = not (string_eq.beq (host_state_str a) (host_state_str b))

-- A host's record, if the read succeeds.
unfoldable pub row_loaded : Io → Db → RolloutId → HostId → Option HostRolloutState
unfolding load
row_loaded io db rollout_id host =
    if io.succeeds (Statement.load_record rollout_id host)
    then load db.host_rollout_records rollout_id host
    else none

module _ (io : Io) (now : Time) where
  -- The rollout has host records, and all of them have converged.
  unfoldable pub all_converged : Db → RolloutId → Bool
  unfolding all_for_rollout all
  all_converged db rollout_id =
      io.succeeds (Statement.all_for_rollout rollout_id)
      && not (is_empty (all_for_rollout db.host_rollout_records rollout_id))
      && all (λ (r : HostRolloutState). is_converged r.state)
          (all_for_rollout db.host_rollout_records rollout_id)

  -- What a host's change of state tells the rollout.
  unfoldable pub tell_rollout : Db → HostId → RolloutId → HostState → HostState → Db
  unfolding process_rollout_event all_converged state_changed
  tell_rollout db host rollout_id from to =
      let told = process_rollout_event io now db (host_state_changed rollout_id host from to now) in
      let done = process_rollout_event io now told (rollout_terminal rollout_id now) in
      if not (state_changed from to)
      then db
      else if is_converged to && all_converged told rollout_id
      then done
      else told

  -- The tail of `handle_host_event`, once `step` has accepted the event.
  unfoldable pub commit :
      SignedManifestSet → Db → HostId → RolloutId → HostState → HostRolloutState → List Effect → Db
  unfolding upsert apply_effects tell_rollout
  commit manifests db host rollout_id from next effects =
      let written = record db { host_rollout_records = upsert db.host_rollout_records next } in
      let done =
        tell_rollout (apply_effects io manifests now written effects) host rollout_id from
          next.state in
      if io.succeeds (Statement.upsert_record next.rollout_id next.hostname) then done else db

  unfoldable pub handle_host_event : ReducerState → Db → HostId → RolloutId → Event → Db
  unfolding row_loaded resolve_policy commit seq step
  handle_host_event rs db host rollout_id event = elim (row_loaded io db rollout_id host) [
    | none ↦ db
    | some prior ↦ if leb (seq event) prior.last_event_seq then db else elim rs.manifests [
      | none ↦ db
      | some manifests ↦ elim (resolve_policy manifests prior.channel) [
        | none ↦ db
        | some policy ↦ elim (step prior event now policy) [
          | err _ ↦ db
          | ok (next, effects) ↦
              commit manifests db host rollout_id prior.state
                (record next { last_event_seq = seq event }) effects
        ]
      ]
    ]
  ]
