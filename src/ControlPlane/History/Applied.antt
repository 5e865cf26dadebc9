-- ===== src/ControlPlane/History/Applied.antt =====
-- The actions and the effects that the applier executes leave later tables.
use nixfleet.Prelude.{
  ℕ, ◌≡◌, inl, inr, refl, subst, Option, none, List, [], ◌∷◌, Bool-cases, Option-cases, find,
  string_eq,
}
use nixfleet.Prelude.HashMap.{get, get-insert, contains_key}
use nixfleet.Proto.{
  Time, RolloutId, rollout_id_eq, ChannelId, ChannelRef, HostId, ClosureHash, HostWave,
}
use nixfleet.Host.Effect.{
  Effect, remote_queue_dispatch, remote_insert_quarantine, remote_open_rollout_record,
  remote_append_event_log, record_transition,
}
use nixfleet.Rollout.Event.{host_joined, successor_opened, rollout_opened}
use nixfleet.Planner.Types.{SignedManifestSet, PlanAction}
use nixfleet.ControlPlane.Io.{Io}
use nixfleet.ControlPlane.Store.{Db}
use nixfleet.ControlPlane.Store.Rollouts as Rollouts
use nixfleet.ControlPlane.Store.Records.{RecordTable, upsert}
use nixfleet.ControlPlane.Store.DispatchQueue.{DispatchTable}
use nixfleet.ControlPlane.Store.ProbeFailures.{ProbeFailureInsert, insert_many}
use nixfleet.ControlPlane.Applier.RolloutEvents.{process_rollout_event}
use nixfleet.ControlPlane.Applier.{
  joined, join_hosts, supersede_all, opened_over, fill_rollout, open_rollout, enqueue_dispatch,
  record_lifted, record_deferral, apply_plan_action, apply_plan_actions, open_one_rollout_record,
  apply_effect, apply_effects, manifest_of, in_flight_predecessors,
}
use nixfleet.ControlPlane.History.{
  Advanced, Extends-refl, Later, IsKeyed, Later-refl, Later-trans, Later-if, Later-IsKeyed,
  same_rollouts, unchanged,
}
use nixfleet.ControlPlane.History.Transitions.{
  append_event_log-Later, append_rollout_event-Later, process_rollout_event-Later,
  with_rollouts-Later, insert_quarantine-Extends,
}

pub with_records-Later :
    (db : Db) (table : RecordTable) → Later db (record db { host_rollout_records = table })
with_records-Later db table = record {
  rollouts = same_rollouts db;
  event_log = Extends-refl db.event_log;
  quarantines = Extends-refl db.quarantined_closures;
  probe_failures = Extends-refl db.probe_failures;
}

with_queue-Later :
    (db : Db) (table : DispatchTable) → Later db (record db { dispatch_queue = table })
with_queue-Later db table = record {
  rollouts = same_rollouts db;
  event_log = Extends-refl db.event_log;
  quarantines = Extends-refl db.quarantined_closures;
  probe_failures = Extends-refl db.probe_failures;
}

with_failures-Later :
    (db : Db) (rows : List ProbeFailureInsert)
    → Later db (record db { probe_failures = insert_many db.probe_failures rows })
unfolding insert_many
with_failures-Later db rows = record {
  rollouts = same_rollouts db;
  event_log = Extends-refl db.event_log;
  quarantines = Extends-refl db.quarantined_closures;
  probe_failures = (rows, refl);
}

-- Two operations in a row, the second on the keyed tables that the first leaves.
pub andthen : (a b c : Db) → IsKeyed a → Later a b → (IsKeyed b → Later b c) → Later a c
andthen a b c keyed l next = Later-trans a b c l (next (Later-IsKeyed a b keyed l))

pub inserted-Advanced :
    (table : Rollouts.RolloutTable) (id : RolloutId) (channel : ChannelId) (target : ChannelRef)
    (at : Time) (seq : Option ℕ) (j : RolloutId)
    → Advanced j
        (get table j)
        (get (Rollouts.record_rollout_opened table id channel target at seq) j)
unfolding Rollouts.record_rollout_opened contains_key
inserted-Advanced table id channel target at seq j = elim (Option-cases (get table id)) [
  | inr (row, q) ↦ rw q (unchanged j (get table j))
  | inl q ↦
      rw (q, get-insert)
        (elim (Bool-cases (rollout_id_eq.beq id j)) [
          | inr other ↦ rw other (unchanged j (get table j))
          | inl same ↦
              let id_j = (rollout_id_eq.beq_iff id j).0 same in
              rw (same, subst (λ x. get table x ≡ none) id_j q) id_j
        ])
]

module _ (io : Io) (manifests : SignedManifestSet) (now : Time) where
  join_hosts-Later :
      (db : Db) (id : RolloutId) (channel : ChannelId) (hws : List HostWave)
      → IsKeyed db
      → Later db (join_hosts io manifests now db id channel hws)
  unfolding join_hosts upsert joined
  join_hosts-Later db id channel [] keyed = Later-refl db
  join_hosts-Later db id channel (hw ∷ hws) keyed =
      let e = host_joined id hw.hostname hw.wave_index now in
      let written = record db {
        host_rollout_records =
            upsert db.host_rollout_records (joined io manifests now id channel hw);
      } in
      let joining = process_rollout_event io now written e in
      Later-if _ db _ _
        (andthen db written _ keyed (with_records-Later db _) (λ k1.
          andthen written joining _ k1 (process_rollout_event-Later io now written e k1)
            (λ k2. join_hosts-Later joining id channel hws k2)))
        (join_hosts-Later db id channel hws keyed)

  pub supersede_all-Later :
      (db : Db) (id : RolloutId) (predecessors : List RolloutId)
      → IsKeyed db
      → Later db (supersede_all io manifests now db id predecessors)
  unfolding supersede_all
  supersede_all-Later db id [] keyed = Later-refl db
  supersede_all-Later db id (p ∷ ps) keyed =
      let told = process_rollout_event io now db (successor_opened p id now) in
      andthen db told _ keyed
        (process_rollout_event-Later io now db (successor_opened p id now) keyed)
        (λ k. supersede_all-Later told id ps k)

  pub opened_over-Later :
      (db : Db) (ps : List RolloutId) (id : RolloutId) (channel : ChannelId) (target : ChannelRef)
      → IsKeyed db
      → Later db (opened_over io manifests now db ps id channel target)
  unfolding opened_over
  opened_over-Later db ps id channel target keyed =
      andthen db _ _ keyed
        (with_rollouts-Later io now db _ (inserted-Advanced db.rollouts id channel target now none))
        (λ k1.
          andthen _ _ _ k1
            (append_rollout_event-Later io now _ id (rollout_opened id channel target now))
            (λ k2. supersede_all-Later _ id ps k2))

  pub fill_rollout-Later :
      (db : Db) (id : RolloutId) (channel : ChannelId) (target : ChannelRef)
      → IsKeyed db
      → Later db (fill_rollout io manifests now db id channel target)
  unfolding fill_rollout
  fill_rollout-Later db id channel target keyed =
      elim (Option-cases (manifest_of manifests channel)) [
        | inl q ↦ rw (fill_rollout, q) (Later-refl db)
        | inr (manifest, q) ↦
            rw (fill_rollout, q)
              (andthen db (join_hosts io manifests now db id channel manifest.host_set) _ keyed
                (join_hosts-Later db id channel manifest.host_set keyed)
                (λ k. append_event_log-Later io now _ _ _ _ _))
      ]

  open_rollout-Later :
      (db : Db) (id : RolloutId) (channel : ChannelId) (target : ChannelRef)
      → IsKeyed db
      → Later db (open_rollout io manifests now db id channel target)
  unfolding open_rollout
  open_rollout-Later db id channel target keyed = Later-if _ db _ _ (Later-refl db) (
      andthen db _ _ keyed
        (opened_over-Later db (in_flight_predecessors io manifests now db channel id) id channel
          target keyed)
        (λ k. fill_rollout-Later _ id channel target k))

  enqueue_dispatch-Later :
      (db : Db) (host : HostId) (id : RolloutId) (closure : ClosureHash) (due : Time)
      → Later db (enqueue_dispatch io manifests now db host id closure due)
  unfolding enqueue_dispatch
  enqueue_dispatch-Later db host id closure due =
      Later-if _ db _ _ (Later-refl db)
        (Later-trans db _ _ (with_queue-Later db _) (append_event_log-Later io now _ _ _ _ _))

  pub apply_plan_action-Later :
      (db : Db) (a : PlanAction) → IsKeyed db → Later db (apply_plan_action io manifests now db a)
  unfolding apply_plan_action record_lifted record_deferral
  apply_plan_action-Later db (PlanAction.open_rollout id channel target) keyed =
      open_rollout-Later db id channel target keyed
  apply_plan_action-Later db (PlanAction.queue_dispatch host id closure due) keyed =
      enqueue_dispatch-Later db host id closure due
  apply_plan_action-Later db (PlanAction.record_halt_lifted channel) keyed =
      append_event_log-Later io now db _ _ _ _
  apply_plan_action-Later db (PlanAction.defer_dispatch host id gate reason) keyed =
      append_event_log-Later io now db _ _ _ _

  pub apply_plan_actions-Later :
      (db : Db) (actions : List PlanAction)
      → IsKeyed db
      → Later db (apply_plan_actions io manifests now db actions)
  unfolding apply_plan_actions
  apply_plan_actions-Later db [] keyed = Later-refl db
  apply_plan_actions-Later db (a ∷ actions) keyed =
      let done = apply_plan_action io manifests now db a in
      andthen db done _ keyed (apply_plan_action-Later db a keyed)
        (λ k. apply_plan_actions-Later done actions k)

  open_one_rollout_record-Later :
      (db : Db) (id : RolloutId) (channel : ChannelId) (host : HostId)
      → Later db (open_one_rollout_record io manifests now db id channel host)
  unfolding open_one_rollout_record
  open_one_rollout_record-Later db id channel host =
      elim (Option-cases (manifest_of manifests channel)) [
        | inl q ↦ rw (open_one_rollout_record, q) (Later-refl db)
        | inr (manifest, q) ↦
            elim (Option-cases
              (find (λ (h : HostWave). string_eq.beq h.hostname host) manifest.host_set)) [
                | inl p ↦ rw (open_one_rollout_record, q, p) (Later-refl db)
                | inr (hw, p) ↦
                    rw (open_one_rollout_record, q, p)
                      (Later-if _ db _ _ (Later-refl db) (
                        Later-trans db _ _ (with_records-Later db _)
                          (append_event_log-Later io now _ _ _ _ _)))
              ]
      ]

  pub apply_effect-Later : (db : Db) (fx : Effect) → Later db (apply_effect io manifests now db fx)
  unfolding apply_effect
  apply_effect-Later db (remote_queue_dispatch host id closure due) =
      enqueue_dispatch-Later db host id closure due
  apply_effect-Later db (remote_insert_quarantine channel closure) =
      Later-if _ db _ _ (Later-refl db) (
        Later-trans db _ _
          (record {
            rollouts = same_rollouts db;
            event_log = Extends-refl db.event_log;
            quarantines =
                insert_quarantine-Extends io now db.quarantined_closures channel closure now none;
            probe_failures = Extends-refl db.probe_failures;
          })
          (append_event_log-Later io now _ _ _ _ _))
  apply_effect-Later db (remote_open_rollout_record id channel host) =
      open_one_rollout_record-Later db id channel host
  apply_effect-Later db (remote_append_event_log host id payload) =
      Later-if _ db _ _
        (Later-trans db _ _ (append_event_log-Later io now db _ _ _ _) (with_failures-Later _ _))
        (append_event_log-Later io now db _ _ _ _)
  apply_effect-Later db (record_transition host id from to at) =
      append_event_log-Later io now db _ _ _ _
  apply_effect-Later db (Effect.local_fire_switch _ _) = Later-refl db
  apply_effect-Later db (Effect.local_fire_rollback_to _ _) = Later-refl db
  apply_effect-Later db (Effect.local_reset_probe_cache _) = Later-refl db
  apply_effect-Later db (Effect.local_emit_event _ _ _) = Later-refl db
  apply_effect-Later db (Effect.emit_metric _ _ _) = Later-refl db
  apply_effect-Later db (Effect.emit_log _ _ _ _) = Later-refl db

  pub apply_effects-Later :
      (db : Db) (fxs : List Effect) → Later db (apply_effects io manifests now db fxs)
  unfolding apply_effects
  apply_effects-Later db [] = Later-refl db
  apply_effects-Later db (fx ∷ fxs) =
      let done = apply_effect io manifests now db fx in
      Later-trans db done _ (apply_effect-Later db fx) (apply_effects-Later done fxs)
