-- ===== src/ControlPlane/Applier/Opening.antt =====
-- crates/nixfleet-control-plane/src/runtime/applier.rs: what becomes of the database when a rollout opens:
-- its row, its hosts and its predecessors.
use nixfleet.Prelude.{
  ℕ, ◌&&◌, not, Option, none, some, List, [], ◌∷◌, if◌then◌else◌, get_elem?, string_eq,
}
use nixfleet.Prelude.HashMap.{get}
use nixfleet.Proto.{
  Time, RolloutId, rollout_id_eq, ChannelId, ChannelRef, HostWave, RolloutManifest,
}
use nixfleet.Host.State.{HostRolloutState, new_pending}
use nixfleet.Rollout.Event.{rollout_opened, host_joined, successor_opened}
use nixfleet.Planner.Types.{SignedManifestSet}
use nixfleet.Planner.Plan.{compute_soak_due_at}
use nixfleet.ControlPlane.Json.{string, array, json, items}
use nixfleet.ControlPlane.Store.{Db}
use nixfleet.ControlPlane.Store.Rollouts.{ActiveRollout, record_rollout_opened, list_active}
use nixfleet.ControlPlane.Store.Records.{upsert}
use nixfleet.ControlPlane.Store.EventLog.{plan_action}
use nixfleet.ControlPlane.Io.{Io, Statement}
use nixfleet.ControlPlane.Applier.RolloutEvents.{
  append_event_log, append_rollout_event, process_rollout_event,
}

abbrev pub default_soak_minutes : ℕ
default_soak_minutes = 60

-- The soak of a wave of a channel: that of its policy's wave, or the default where a link is missing.
unfoldable pub soak_minutes_for : SignedManifestSet → ChannelId → ℕ → ℕ
unfolding get
soak_minutes_for manifests channel wave_index =
    let fleet = manifests.fleet.inner in
    elim (get fleet.channels channel) [
      | none ↦ default_soak_minutes
      | some c ↦ elim (get fleet.rollout_policies c.rollout_policy) [
        | none ↦ default_soak_minutes
        | some p ↦ elim (get_elem? p.waves wave_index) [
          | none ↦ default_soak_minutes
          | some w ↦ w.soak_minutes
        ]
      ]
    ]

unfoldable pub manifest_of : SignedManifestSet → ChannelId → Option RolloutManifest
unfolding get
manifest_of manifests channel = elim (get manifests.rollouts channel) [
  | none ↦ none
  | some v ↦ some v.inner
]

module _ (io : Io) (manifests : SignedManifestSet) (now : Time) where
  -- The record of a host that joins a rollout.
  unfoldable pub joined : RolloutId → ChannelId → HostWave → HostRolloutState
  unfolding soak_minutes_for compute_soak_due_at new_pending
  joined rollout_id channel hw =
      new_pending rollout_id hw.hostname channel hw.target_closure now
        (compute_soak_due_at now (soak_minutes_for manifests channel hw.wave_index))

  -- The loop over the manifest's hosts.
  unfoldable pub join_hosts : Db → RolloutId → ChannelId → List HostWave → Db
  unfolding upsert joined process_rollout_event
  join_hosts db rollout_id channel [] = db
  join_hosts db rollout_id channel (hw ∷ hws) =
      let written = record db {
        host_rollout_records = upsert db.host_rollout_records (joined rollout_id channel hw);
      } in
      let joining =
        process_rollout_event io now written
          (host_joined rollout_id hw.hostname hw.wave_index now) in
      let done = join_hosts joining rollout_id channel hws in
      let skipped = join_hosts db rollout_id channel hws in
      if io.succeeds (Statement.upsert_record rollout_id hw.hostname) then done else skipped

  -- The loop over the predecessors.
  unfoldable pub supersede_all : Db → RolloutId → List RolloutId → Db
  unfolding process_rollout_event
  supersede_all db rollout_id [] = db
  supersede_all db rollout_id (predecessor ∷ predecessors) =
      supersede_all (process_rollout_event io now db (successor_opened predecessor rollout_id now))
        rollout_id predecessors

  -- The rollouts of the channel that are listed, without the one that is opened.
  unfoldable pub predecessors_in : List ActiveRollout → ChannelId → RolloutId → List RolloutId
  predecessors_in [] channel rollout_id = []
  predecessors_in (r ∷ rs) channel rollout_id =
      let rest = predecessors_in rs channel rollout_id in
      if string_eq.beq r.channel channel && not (rollout_id_eq.beq r.rollout_id rollout_id)
      then r.rollout_id ∷ rest
      else rest

  -- The database after the insertion, its log entry, and the supersession of the predecessors.
  unfoldable pub opened_over : Db → List RolloutId → RolloutId → ChannelId → ChannelRef → Db
  unfolding record_rollout_opened append_rollout_event supersede_all
  opened_over db predecessors rollout_id channel target_ref =
      let inserted = record db {
        rollouts = record_rollout_opened db.rollouts rollout_id channel target_ref now none;
      } in
      let logged =
        append_rollout_event io now inserted rollout_id
          (rollout_opened rollout_id channel target_ref now) in
      supersede_all logged rollout_id predecessors

  unfoldable pub in_flight_predecessors : Db → ChannelId → RolloutId → List RolloutId
  unfolding list_active predecessors_in
  in_flight_predecessors db channel rollout_id =
      if io.succeeds Statement.list_active
      then predecessors_in (list_active db.rollouts) channel rollout_id
      else []

  -- The hosts of the manifest, if there is one, and the log entry.
  unfoldable pub fill_rollout : Db → RolloutId → ChannelId → ChannelRef → Db
  unfolding join_hosts append_event_log manifest_of items
  fill_rollout db rollout_id channel target_ref = elim (manifest_of manifests channel) [
    | none ↦ db
    | some manifest ↦
        append_event_log io now (join_hosts db rollout_id channel manifest.host_set) none
          (some rollout_id.text) plan_action
          (json (
            ("action", string "OpenRollout")
            ∷ ("rollout_id", string rollout_id.text)
            ∷ ("channel", string channel)
            ∷ ("target_ref", string target_ref)
            ∷ ("hosts", array (items (λ (h : HostWave). string h.hostname) manifest.host_set))
            ∷ []))
  ]

  unfoldable pub open_rollout : Db → RolloutId → ChannelId → ChannelRef → Db
  unfolding in_flight_predecessors opened_over fill_rollout
  open_rollout db rollout_id channel target_ref =
      let predecessors = in_flight_predecessors db channel rollout_id in
      let superseded = opened_over db predecessors rollout_id channel target_ref in
      if not (io.succeeds (Statement.record_rollout_opened rollout_id))
      then db
      else fill_rollout superseded rollout_id channel target_ref
