-- ===== src/ControlPlane/History/Inputs.antt =====
-- The inputs of the control plane's task leave later tables: no rollout is lost, none leaves the
-- diagram, and what is logged stays.
use nixfleet.Prelude.{
  inl, inr, Option, none, some, List, [], ◌∷◌, if◌then◌else◌, Option-cases, Result-cases, string_eq,
}
use nixfleet.Prelude.Int.{pos}
use nixfleet.Prelude.HashMap.{HashMap, get, insert}
use nixfleet.Proto.{Time, RolloutId, rollout_id_eq, HostId, ClosureHash}
use nixfleet.Host.State.{
  HostState, HostRolloutState, pending, activating, deferred, soaking, converged, failed, reverted,
}
use nixfleet.Host.Event.{Event}
use nixfleet.Host.Effect.{Effect}
use nixfleet.Host.Transitions.{step}
use nixfleet.Rollout.Event.{host_state_changed, rollout_terminal}
use nixfleet.Planner.Types.{SignedManifestSet, FleetState, RolloutSummary}
use nixfleet.Planner.Plan.{plan_next}
use nixfleet.ControlPlane.Io.{Io, Statement}
use nixfleet.ControlPlane.Store.{Db}
use nixfleet.ControlPlane.Store.Records.{active_for_host, upsert}
use nixfleet.ControlPlane.Store.Rollouts as Rollouts
use nixfleet.ControlPlane.Waves.{bump_of}
use nixfleet.ControlPlane.Recovery.{seq_after, synth_converged_at}
use nixfleet.ControlPlane.Applier.{apply_effects}
use nixfleet.ControlPlane.Applier.RolloutEvents.{process_rollout_event}
use nixfleet.ControlPlane.Runtime.FleetView.{build_fleet_state, resolve_policy}
use nixfleet.ControlPlane.Runtime.HostEvents.{
  ReducerState, row_loaded, tell_rollout, commit, handle_host_event,
}
use nixfleet.ControlPlane.Runtime.Heartbeats.{
  synthesize_chain, missed, synthesize_in, synthesize_rows, maybe_synthesize_recovery_completion,
}
use nixfleet.ControlPlane.Runtime.{
  ReducerInput, host_event, manifest_set_updated, heartbeat_received, plan_tick, write_bumps,
  bumped, run_plan, recovered_by, handle_heartbeat, handle_input, run_inputs,
}
use nixfleet.ControlPlane.History.{
  Advanced, Extends, Later, IsKeyed, Later-refl, Later-trans, Later-if, Later-IsKeyed,
}
use nixfleet.ControlPlane.History.Transitions.{process_rollout_event-Later, set_current_wave-Later}
use nixfleet.ControlPlane.History.Applied.{
  with_records-Later, apply_effects-Later, apply_plan_actions-Later, andthen,
}

module _ (io : Io) (now : Time) where
  tell_rollout-Later :
      (db : Db) (host : HostId) (id : RolloutId) (from to : HostState)
      → IsKeyed db
      → Later db (tell_rollout io now db host id from to)
  unfolding tell_rollout
  tell_rollout-Later db host id from to keyed =
      let e = host_state_changed id host from to now in
      let told = process_rollout_event io now db e in
      let first = process_rollout_event-Later io now db e keyed in
      Later-if _ db _ _ (Later-refl db) (
        Later-if _ db _ _
          (andthen db told _ keyed first
            (λ k. process_rollout_event-Later io now told (rollout_terminal id now) k))
          first)

  commit-Later :
      (manifests : SignedManifestSet) (db : Db) (host : HostId) (id : RolloutId) (from : HostState)
      (next : HostRolloutState) (effects : List Effect)
      → IsKeyed db
      → Later db (commit io now manifests db host id from next effects)
  unfolding commit
  commit-Later manifests db host id from next effects keyed =
      let written = record db { host_rollout_records = upsert db.host_rollout_records next } in
      Later-if _ db _ _
        (andthen db written _ keyed (with_records-Later db _) (λ k1.
          andthen written (apply_effects io manifests now written effects) _ k1
            (apply_effects-Later io manifests now written effects)
            (λ k2. tell_rollout-Later _ host id from next.state k2)))
        (Later-refl db)

  handle_host_event-Later :
      (rs : ReducerState) (db : Db) (host : HostId) (id : RolloutId) (e : Event)
      → IsKeyed db
      → Later db (handle_host_event io now rs db host id e)
  unfolding handle_host_event
  handle_host_event-Later rs db host id e keyed = elim (Option-cases (row_loaded io db id host)) [
    | inl q ↦ rw (handle_host_event, q) (Later-refl db)
    | inr (prior, q) ↦ elim (Option-cases rs.manifests) [
      | inl p ↦ rw (handle_host_event, q, p) (Later-if _ db _ _ (Later-refl db) (Later-refl db))
      | inr (m, p) ↦ elim (Option-cases (resolve_policy m prior.channel)) [
        | inl o ↦
            rw (handle_host_event, q, p, o) (Later-if _ db _ _ (Later-refl db) (Later-refl db))
        | inr (policy, o) ↦ elim (Result-cases (step prior e now policy)) [
          | inr (_, n) ↦
              rw (handle_host_event, q, p, o, n) (Later-if _ db _ _ (Later-refl db) (Later-refl db))
          | inl ((next, fx), n) ↦
              rw (handle_host_event, q, p, o, n)
                (Later-if _ db _ _ (Later-refl db)
                  (commit-Later m db host id prior.state _ fx keyed))
        ]
      ]
    ]
  ]

  chain-Later :
      (rs : ReducerState) (db : Db) (row : HostRolloutState) (closure : ClosureHash) (at : Time)
      → IsKeyed db
      → Later db (synthesize_chain io now rs db row closure at)
  unfolding synthesize_chain
  chain-Later rs db row closure at keyed =
      let ack = Event.remote_dispatch_ack "" at (seq_after row 1) in
      let switch = Event.remote_activation_completed closure (pos 0) at (seq_after row 2) in
      let acked = handle_host_event io now rs db row.hostname row.rollout_id ack in
      let completed = handle_host_event io now rs acked row.hostname row.rollout_id switch in
      let first = handle_host_event-Later rs db row.hostname row.rollout_id ack keyed in
      let k1 = Later-IsKeyed db acked keyed first in
      let second = handle_host_event-Later rs acked row.hostname row.rollout_id switch k1 in
      let both = Later-trans db acked completed first second in
      elim (Option-cases (row_loaded io completed row.rollout_id row.hostname)) [
        | inl q ↦ rw (synthesize_chain, q) both
        | inr (post, q) ↦
            rw (synthesize_chain, q)
              (andthen db completed _ keyed both (λ k.
                handle_host_event-Later rs completed row.hostname row.rollout_id
                  (Event.remote_converged (synth_converged_at post.soak_due_at at) closure
                    (seq_after row 3))
                  k))
      ]

  synthesize_in-Later :
      (rs : ReducerState) (h : HostState) (db : Db) (host : HostId) (row : HostRolloutState)
      (closure : ClosureHash) (at : Time)
      → IsKeyed db
      → Later db (synthesize_in io now rs h db host row closure at)
  unfolding synthesize_in missed
  synthesize_in-Later rs activating db host row closure at keyed =
      Later-if _ db _ _
        (handle_host_event-Later rs db host row.rollout_id
          (Event.remote_activation_completed closure (pos 0) at (seq_after row 1)) keyed)
        (Later-refl db)
  synthesize_in-Later rs deferred db host row closure at keyed =
      Later-if _ db _ _
        (handle_host_event-Later rs db host row.rollout_id
          (Event.remote_activation_completed closure (pos 0) at (seq_after row 1)) keyed)
        (Later-refl db)
  synthesize_in-Later rs pending db host row closure at keyed =
      Later-if _ db _ _ (Later-if _ db _ _ (Later-refl db) (chain-Later rs db row closure at keyed))
        (Later-refl db)
  synthesize_in-Later rs failed db host row closure at keyed =
      Later-if _ db _ _
        (handle_host_event-Later rs db host row.rollout_id
          (Event.remote_rollback_complete closure (pos 0) at (seq_after row 1)) keyed)
        (Later-refl db)
  synthesize_in-Later rs soaking db host row closure at keyed = Later-refl db
  synthesize_in-Later rs converged db host row closure at keyed = Later-refl db
  synthesize_in-Later rs reverted db host row closure at keyed = Later-refl db

  synthesize_rows-Later :
      (rs : ReducerState) (db : Db) (host : HostId) (rows : List HostRolloutState)
      (closure : ClosureHash) (at : Time)
      → IsKeyed db
      → Later db (synthesize_rows io now rs db host rows closure at)
  unfolding synthesize_rows
  synthesize_rows-Later rs db host [] closure at keyed = Later-refl db
  synthesize_rows-Later rs db host (row ∷ rows) closure at keyed =
      let next = synthesize_in io now rs row.state db host row closure at in
      andthen db next _ keyed (synthesize_in-Later rs row.state db host row closure at keyed)
        (λ k. synthesize_rows-Later rs next host rows closure at k)

  recovered_by-Later :
      (rs : ReducerState) (db : Db) (host : HostId) (closure : Option ClosureHash) (at : Time)
      → IsKeyed db
      → Later db (recovered_by io now rs db host closure at)
  unfolding recovered_by maybe_synthesize_recovery_completion
  recovered_by-Later rs db host none at keyed = Later-refl db
  recovered_by-Later rs db host (some closure) at keyed =
      let rows = active_for_host db.host_rollout_records host in
      Later-if (io.succeeds (Statement.active_for_host host)) db _ _
        (synthesize_rows-Later rs db host rows closure at keyed) (Later-refl db)

  write_bumps-Later :
      (manifests : SignedManifestSet) (f : FleetState) (rollouts : HashMap RolloutId RolloutSummary)
      (db : Db)
      → Later db (write_bumps io now manifests f rollouts db)
  unfolding write_bumps
  write_bumps-Later manifests f [] db = Later-refl db
  write_bumps-Later manifests f ((id, summary) ∷ rollouts) db =
      elim (Option-cases (bump_of manifests.fleet.inner f id summary)) [
        | inl q ↦ rw (write_bumps, q) (write_bumps-Later manifests f rollouts db)
        | inr (wave, q) ↦
            let next =
              if io.succeeds (Statement.set_current_wave id wave)
              then record db { rollouts = Rollouts.set_current_wave db.rollouts id wave none }
              else db in
            rw (write_bumps, q)
              (Later-trans db next _
                (Later-if _ db _ _ (set_current_wave-Later io now db id wave none) (Later-refl db))
                (write_bumps-Later manifests f rollouts next))
      ]

  run_plan-Later : (rs : ReducerState) (db : Db) → IsKeyed db → Later db (run_plan io now rs db)
  unfolding run_plan
  run_plan-Later rs db keyed = elim (Option-cases rs.manifests) [
    | inl q ↦ rw (run_plan, q) (Later-refl db)
    | inr (m, q) ↦ elim (Option-cases (build_fleet_state io db m)) [
      | inl p ↦ rw (run_plan, q, p) (Later-refl db)
      | inr (f, p) ↦
          rw (run_plan, q, p)
            (andthen db (write_bumps io now m f f.rollouts db) _ keyed
              (write_bumps-Later m f f.rollouts db)
              (λ k.
                apply_plan_actions-Later io m now _
                  (plan_next (bumped io now m f) m rs.quarantines now) k))
    ]
  ]

  handle_input-Later :
      (rs : ReducerState) (db : Db) (input : ReducerInput)
      → IsKeyed db
      → Later db (handle_input io now rs db input).1
  unfolding handle_input handle_heartbeat
  handle_input-Later rs db (host_event host id e) keyed =
      handle_host_event-Later rs db host id e keyed
  handle_input-Later rs db (manifest_set_updated set) keyed =
      run_plan-Later (record rs { manifests = some set }) db keyed
  handle_input-Later rs db (heartbeat_received host id closure at) keyed =
      recovered_by-Later (record rs { last_heartbeat_at = insert rs.last_heartbeat_at host at }) db
        host closure at keyed
  handle_input-Later rs db plan_tick keyed = run_plan-Later rs db keyed

run_inputs-Later :
    (rs : ReducerState) (db : Db) (inputs : List ((Io × Time) × ReducerInput))
    → IsKeyed db
    → Later db (run_inputs rs db inputs).1
unfolding run_inputs
run_inputs-Later rs db [] keyed = Later-refl db
run_inputs-Later rs db (((io, now), input) ∷ inputs) keyed =
    let next = handle_input io now rs db input in
    andthen db next.1 (run_inputs next.0 next.1 inputs).1 keyed
      (handle_input-Later io now rs db input keyed) (λ k. run_inputs-Later next.0 next.1 inputs k)

-- After any inputs, whichever statements fail, a rollout that had a row has one still: its state has
-- moved along the diagram, its wave cursor has not gone back, and its channel, target and opening time
-- are what they were; and a row that is new stands under its own id. Every row stands under its own id
-- at the start.
pub run_inputs-Advanced :
    (rs : ReducerState) (db : Db) (inputs : List ((Io × Time) × ReducerInput)) (id : RolloutId)
    → IsKeyed db
    → Advanced id (get db.rollouts id) (get (run_inputs rs db inputs).1.rollouts id)
run_inputs-Advanced rs db inputs id keyed = (run_inputs-Later rs db inputs keyed).rollouts id

-- After any inputs, whichever statements fail, the event log, the quarantined closures and the probe
-- failures are the rows that were there, followed by new ones: none is changed or lost. Every row of
-- the rollouts stands under its own id at the start.
pub run_inputs-Extends :
    (rs : ReducerState) (db : Db) (inputs : List ((Io × Time) × ReducerInput))
    → IsKeyed db
    → Extends db.event_log (run_inputs rs db inputs).1.event_log
      × Extends db.quarantined_closures (run_inputs rs db inputs).1.quarantined_closures
      × Extends db.probe_failures (run_inputs rs db inputs).1.probe_failures
run_inputs-Extends rs db inputs keyed =
    let l = run_inputs-Later rs db inputs keyed in (l.event_log, l.quarantines, l.probe_failures)
