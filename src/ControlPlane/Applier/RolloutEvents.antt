-- ===== src/ControlPlane/Applier/RolloutEvents.antt =====
-- crates/nixfleet-control-plane/src/runtime/applier.rs: a rollout's event, through the reducer, into the
-- tables.
use nixfleet.Prelude.{String, Option, none, some, List, [], ◌∷◌, ok, err, if◌then◌else◌}
use nixfleet.Proto.{Time, RolloutId, rollout_id_eq}
use nixfleet.Rollout.State.{as_db_str}
use nixfleet.Rollout.Event.{
  RolloutEvent, RolloutEffect, rollout_opened, host_joined, host_state_changed, wave_advanced,
  rollout_terminal, successor_opened, retention_expired, operator_clearance,
  record_rollout_transition, update_current_wave, insert_quarantine_from_rollout, schedule_pruning,
}
use nixfleet.Rollout.Transitions.{rollout_step}
use nixfleet.ControlPlane.Json.{Json, string, json}
use nixfleet.ControlPlane.Payload.{rollout_event_to_json}
use nixfleet.ControlPlane.Io.{Io, Statement}
use nixfleet.ControlPlane.Store.{Db}
use nixfleet.ControlPlane.Store.Rollouts as Rollouts
use nixfleet.ControlPlane.Store.Quarantines.{insert_quarantine}
use nixfleet.ControlPlane.Store.EventLog.{EventLogKind, append, effect, rollout_event}

-- A rollout's row, if the read succeeds.
unfoldable pub rollout_row : Io → Db → RolloutId → Option Rollouts.RolloutRow
unfolding Rollouts.state
rollout_row io db id =
    if io.succeeds (Statement.rollout_state id) then Rollouts.state db.rollouts id else none

module _ (io : Io) (now : Time) where
  -- The entry that the writer's task appends; one whose append fails is logged and lost.
  unfoldable pub append_event_log : Db → Option String → Option String → EventLogKind → Json → Db
  unfolding append
  append_event_log db host_id rollout_id kind payload =
      if io.succeeds (Statement.append_event kind)
      then record db {
        event_log = append db.event_log (record {
          kind = kind;
          ts = now;
          host_id = host_id;
          rollout_id = rollout_id;
          payload = payload;
        });
      }
      else db

  unfoldable pub append_rollout_event : Db → RolloutId → RolloutEvent → Db
  unfolding append_event_log rollout_event_to_json
  append_rollout_event db rollout_id event =
      append_event_log db none (some rollout_id.text) rollout_event
        (rollout_event_to_json io.to_rfc3339 event)

  unfoldable pub apply_rollout_effect : Db → RolloutEffect → Db
  unfolding append_event_log Rollouts.record_rollout_transition Rollouts.set_current_wave
      insert_quarantine as_db_str
  apply_rollout_effect db (record_rollout_transition rollout_id from to at) =
      append_event_log
        (if io.succeeds (Statement.record_rollout_transition rollout_id to)
          then record db {
            rollouts = Rollouts.record_rollout_transition db.rollouts rollout_id to at none;
          }
          else db)
        none (some rollout_id.text) effect
        (json (
          ("effect", string "RecordRolloutTransition")
          ∷ ("rolloutId", string rollout_id.text)
          ∷ ("from", string (as_db_str from))
          ∷ ("to", string (as_db_str to))
          ∷ ("at", string (io.to_rfc3339 at))
          ∷ []))
  apply_rollout_effect db (update_current_wave rollout_id wave) =
      if io.succeeds (Statement.set_current_wave rollout_id wave)
      then record db { rollouts = Rollouts.set_current_wave db.rollouts rollout_id wave none }
      else db
  apply_rollout_effect db (insert_quarantine_from_rollout channel closure_hash) =
      if io.succeeds (Statement.insert_quarantine channel closure_hash)
      then record db {
        quarantined_closures =
            insert_quarantine db.quarantined_closures channel closure_hash now none;
      }
      else db
  apply_rollout_effect db (schedule_pruning _ _) = db

  unfoldable pub apply_rollout_effects : Db → List RolloutEffect → Db
  unfolding apply_rollout_effect
  apply_rollout_effects db [] = db
  apply_rollout_effects db (fx ∷ fxs) = apply_rollout_effects (apply_rollout_effect db fx) fxs

  -- `rollout_event_rollout_id`
  unfoldable pub rollout_event_rollout_id : RolloutEvent → RolloutId
  rollout_event_rollout_id (rollout_opened id _ _ _) = id
  rollout_event_rollout_id (host_joined id _ _ _) = id
  rollout_event_rollout_id (host_state_changed id _ _ _ _) = id
  rollout_event_rollout_id (wave_advanced id _ _ _) = id
  rollout_event_rollout_id (rollout_terminal id _) = id
  rollout_event_rollout_id (successor_opened id _ _) = id
  rollout_event_rollout_id (retention_expired id _) = id
  rollout_event_rollout_id (operator_clearance id _ _ _) = id

  unfoldable pub process_rollout_event : Db → RolloutEvent → Db
  unfolding rollout_row append_rollout_event apply_rollout_effects rollout_step
      rollout_event_rollout_id
  process_rollout_event db event =
      let rollout_id = rollout_event_rollout_id event in
      elim (rollout_row io db rollout_id) [
        | none ↦ db
        | some row ↦ elim (rollout_step row event now) [
          | err _ ↦ append_rollout_event db rollout_id event
          | ok (_, effects) ↦
              apply_rollout_effects (append_rollout_event db rollout_id event) effects
        ]
      ]
