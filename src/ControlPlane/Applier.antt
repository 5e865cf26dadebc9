-- ===== src/ControlPlane/Applier.antt =====
-- crates/nixfleet-control-plane/src/runtime/applier.rs: what an effect and an action of the planner do
-- to the database. The log lines are left out, and so is the mode without a database.
pub mod RolloutEvents
mod Opening
mod ProbeRows
unfoldable pub use Opening.{
  soak_minutes_for, manifest_of, joined, join_hosts, supersede_all, predecessors_in, opened_over,
  in_flight_predecessors, fill_rollout, open_rollout, default_soak_minutes,
}
unfoldable pub use ProbeRows.{sub_failures, probe_rows, is_enforced_fail}
use nixfleet.Prelude.{
  ℕ, String, Bool, true, false, ◌&&◌, not, Option, none, some, List, [], ◌∷◌, if◌then◌else◌,
  is_empty, get_elem?, unwrap_or, find, map, string_eq,
}
use nixfleet.Prelude.HashMap.{get}
use nixfleet.Proto.{
  Time, RolloutId, rollout_id_eq, ChannelId, ChannelRef, HostId, ClosureHash, HostWave,
  RolloutManifest,
}
use nixfleet.Host.State.{
  HostRolloutState, ProbeStatus, ProbeMode, ProbeSubResult, new_pending, fail, enforce,
}
use nixfleet.Host.Effect.{
  Effect, OutboundAgentEvent, remote_queue_dispatch, remote_insert_quarantine,
  remote_open_rollout_record, remote_append_event_log, record_transition, probe_result,
}
use nixfleet.Rollout.Event.{rollout_opened, host_joined, successor_opened}
use nixfleet.Planner.Types.{
  SignedManifestSet, PlanAction, queue_dispatch, defer_dispatch, record_halt_lifted,
}
use nixfleet.Planner.Plan.{compute_soak_due_at}
use nixfleet.ControlPlane.Json.{string, array, json, items}
use nixfleet.ControlPlane.Payload.{outbound_event_to_json, host_state_str}
use nixfleet.ControlPlane.Store.{Db}
use nixfleet.ControlPlane.Store.Rollouts.{ActiveRollout, record_rollout_opened, list_active}
use nixfleet.ControlPlane.Store.Records.{upsert}
use nixfleet.ControlPlane.Store.DispatchQueue as DispatchQueue
use nixfleet.ControlPlane.Store.Quarantines.{insert_quarantine}
use nixfleet.ControlPlane.Store.ProbeFailures.{ProbeFailureInsert, insert_many}
use nixfleet.ControlPlane.Store.EventLog.{agent_event, plan_action, effect, gate_decision}
use nixfleet.ControlPlane.Io.{Io, Statement}
use RolloutEvents.{append_event_log, append_rollout_event, process_rollout_event}

module _ (io : Io) (manifests : SignedManifestSet) (now : Time) where
  unfoldable pub enqueue_dispatch : Db → HostId → RolloutId → ClosureHash → Time → Db
  unfolding DispatchQueue.upsert append_event_log
  enqueue_dispatch db host rollout target_closure soak_due_at =
      let queued = record db {
        dispatch_queue = DispatchQueue.upsert db.dispatch_queue (record {
          hostname = host;
          rollout_id = rollout;
          target_closure = target_closure;
          soak_due_at = soak_due_at;
          enqueued_at = now;
        });
      } in
      if not (io.succeeds (Statement.upsert_dispatch host rollout))
      then db
      else append_event_log io now queued (some host) (some rollout.text) plan_action (
          json (
            ("action", string "QueueDispatch")
            ∷ ("host", string host)
            ∷ ("rollout", string rollout.text)
            ∷ ("target_closure", string target_closure)
            ∷ ("soak_due_at", string (io.to_rfc3339 soak_due_at))
            ∷ []))

  unfoldable pub record_lifted : Db → ChannelId → Db
  unfolding append_event_log
  record_lifted db channel =
      append_event_log io now db none none plan_action
        (json (("action", string "RecordHaltLifted") ∷ ("channel", string channel) ∷ []))

  unfoldable pub record_deferral : Db → HostId → RolloutId → String → String → Db
  unfolding append_event_log
  record_deferral db host rollout gate reason =
      append_event_log io now db (some host) (some rollout.text) gate_decision (
        json (
          ("gate", string gate)
          ∷ ("reason", string reason)
          ∷ ("host", string host)
          ∷ ("rollout", string rollout.text)
          ∷ []))

  unfoldable pub apply_plan_action : Db → PlanAction → Db
  unfolding open_rollout enqueue_dispatch record_lifted record_deferral
  apply_plan_action db (PlanAction.open_rollout rollout_id channel target_ref) =
      open_rollout io manifests now db rollout_id channel target_ref
  apply_plan_action db (queue_dispatch host rollout target_closure soak_due_at) =
      enqueue_dispatch db host rollout target_closure soak_due_at
  apply_plan_action db (record_halt_lifted channel) = record_lifted db channel
  apply_plan_action db (defer_dispatch host rollout gate reason) =
      record_deferral db host rollout gate reason

  unfoldable pub open_one_rollout_record : Db → RolloutId → ChannelId → HostId → Db
  unfolding manifest_of joined upsert append_event_log find
  open_one_rollout_record db rollout_id channel host = elim (manifest_of manifests channel) [
    | none ↦ db
    | some manifest ↦
        elim (find (λ (h : HostWave). string_eq.beq h.hostname host) manifest.host_set) [
          | none ↦ db
          | some hw ↦
              if not (io.succeeds (Statement.upsert_record rollout_id host))
              then db
              else append_event_log io now
                  (record db {
                    host_rollout_records = upsert db.host_rollout_records (
                        joined io manifests now rollout_id channel (record hw { hostname = host }));
                  })
                  (some host) (some rollout_id.text) effect
                  (json (
                    ("effect", string "RemoteOpenRolloutRecord")
                    ∷ ("rollout_id", string rollout_id.text)
                    ∷ ("channel", string channel)
                    ∷ ("host", string host)
                    ∷ []))
        ]
  ]

  -- The `Local*` effects are the agent's and are dropped; a metric and a log line go elsewhere.
  unfoldable pub apply_effect : Db → Effect → Db
  unfolding enqueue_dispatch insert_quarantine append_event_log open_one_rollout_record probe_rows
      insert_many outbound_event_to_json host_state_str
  apply_effect db (remote_queue_dispatch host rollout_id target_closure soak_due_at) =
      enqueue_dispatch db host rollout_id target_closure soak_due_at
  apply_effect db (remote_insert_quarantine channel closure) =
      if not (io.succeeds (Statement.insert_quarantine channel closure))
      then db
      else append_event_log io now
          (record db {
            quarantined_closures =
                insert_quarantine db.quarantined_closures channel closure now none;
          })
          none none effect
          (json (
            ("effect", string "RemoteInsertQuarantine")
            ∷ ("channel", string channel)
            ∷ ("closure", string closure)
            ∷ []))
  apply_effect db (remote_open_rollout_record rollout_id channel host) =
      open_one_rollout_record db rollout_id channel host
  apply_effect db (remote_append_event_log host rollout_id payload) =
      let logged =
        append_event_log io now db (some host) (some rollout_id.text) agent_event
          (outbound_event_to_json io.to_rfc3339 payload) in
      let rows = probe_rows rollout_id host payload in
      if not (is_empty rows) && io.succeeds (Statement.insert_probe_failures rollout_id host)
      then record logged { probe_failures = insert_many logged.probe_failures rows }
      else logged
  apply_effect db (record_transition host rollout_id from to at) =
      append_event_log io now db (some host) (some rollout_id.text) effect (
        json (
          ("effect", string "RecordTransition")
          ∷ ("host", string host)
          ∷ ("rollout_id", string rollout_id.text)
          ∷ ("from", string (host_state_str from))
          ∷ ("to", string (host_state_str to))
          ∷ ("at", string (io.to_rfc3339 at))
          ∷ []))
  apply_effect db _ = db

  unfoldable pub apply_effects : Db → List Effect → Db
  unfolding apply_effect
  apply_effects db [] = db
  apply_effects db (fx ∷ fxs) = apply_effects (apply_effect db fx) fxs

  unfoldable pub apply_plan_actions : Db → List PlanAction → Db
  unfolding apply_plan_action
  apply_plan_actions db [] = db
  apply_plan_actions db (a ∷ actions) = apply_plan_actions (apply_plan_action db a) actions
