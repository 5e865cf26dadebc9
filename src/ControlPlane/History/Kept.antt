-- ===== src/ControlPlane/History/Kept.antt =====
-- The effects of an event of a host leave the table of records as it is, and so does all that is told
-- to the rollout.
use nixfleet.Prelude.{
  ◌≡◌, inl, inr, refl, ◌∙◌, true, false, List, [], ◌∷◌, ok, arith, Option-cases, Result-cases,
  string_eq, pair_eq,
}
use nixfleet.Proto.{Time, RolloutId, rollout_id_eq, HostId, RolloutPolicy}
use nixfleet.Host.State.{
  HostState, HostRolloutState, pending, activating, deferred, soaking, converged, failed, reverted,
}
use nixfleet.Host.Event.{Event}
use nixfleet.Host.Effect.{Effect, remote_open_rollout_record}
use nixfleet.Host.Steps.{step_accepted}
use nixfleet.Host.Transitions.{step, handle_in, terminal_handle, rollback_effects}
use nixfleet.Host.Transitions.Pending
use nixfleet.Host.Transitions.Activating
use nixfleet.Host.Transitions.Deferred
use nixfleet.Host.Transitions.Soaking
use nixfleet.Host.Transitions.Failed
use nixfleet.Rollout.Event.{
  RolloutEvent, RolloutEffect, record_rollout_transition, update_current_wave,
  insert_quarantine_from_rollout, schedule_pruning, host_state_changed, rollout_terminal,
}
use nixfleet.Rollout.Transitions.{rollout_step}
use nixfleet.Planner.Types.{SignedManifestSet}
use nixfleet.ControlPlane.Io.{Io, Statement}
use nixfleet.ControlPlane.Store.{Db}
use nixfleet.ControlPlane.Store.Records.{upsert}
use nixfleet.ControlPlane.Applier.{apply_effect, apply_effects, enqueue_dispatch}
use nixfleet.ControlPlane.Applier.RolloutEvents.{
  append_event_log, append_rollout_event, apply_rollout_effect, apply_rollout_effects, rollout_row,
  process_rollout_event, rollout_event_rollout_id,
}
use nixfleet.ControlPlane.Runtime.HostEvents.{tell_rollout, commit}

-- No effect opens a host's record anew.
abbrev pub OpensNone : List Effect → Type 0
OpensNone [] = Unit
OpensNone (remote_open_rollout_record _ _ _ ∷ fx) = ⊥
OpensNone (_ ∷ fx) = OpensNone fx

OpensNone-cons :
    (fx : Effect) (fxs : List Effect) → OpensNone (fx ∷ fxs) → OpensNone (fx ∷ []) × OpensNone fxs
OpensNone-cons fx fxs h = ground arith

-- The row keeps its key, and its effects open none.
abbrev pub KeepsKey : HostRolloutState → HostRolloutState → List Effect → Type 0
KeepsKey s s' fx = (s'.rollout_id ≡ s.rollout_id) × (s'.hostname ≡ s.hostname) × OpensNone fx

handle_in-KeepsKey :
    (h : HostState) (s : HostRolloutState) (e : Event) (now : Time) (policy : RolloutPolicy)
    {s' : HostRolloutState} {fx : List Effect}
    → handle_in h s e now policy ≡ ok (s', fx)
    → KeepsKey s s' fx
unfolding handle_in Pending.handle Activating.handle Deferred.handle Soaking.handle Failed.handle
    terminal_handle rollback_effects
handle_in-KeepsKey pending s e now policy h = ground arith
handle_in-KeepsKey activating s e now policy h = ground arith
handle_in-KeepsKey deferred s e now policy h = ground arith
handle_in-KeepsKey soaking s e now policy h = ground arith
handle_in-KeepsKey converged s e now policy h = ground arith
handle_in-KeepsKey failed s e now policy h = ground arith
handle_in-KeepsKey reverted s e now policy h = ground arith

pub step-KeepsKey :
    (s : HostRolloutState) (e : Event) (now : Time) (policy : RolloutPolicy) {s' : HostRolloutState}
    {fx : List Effect}
    → step s e now policy ≡ ok (s', fx)
    → KeepsKey s s' fx
step-KeepsKey s e now policy h =
    handle_in-KeepsKey s.state s e now policy (step_accepted s e now policy h).1

module _ (io : Io) (now : Time) where
  rollout_effects-records :
      (db : Db) (fx : List RolloutEffect)
      → (apply_rollout_effects io now db fx).host_rollout_records ≡ db.host_rollout_records
  unfolding apply_rollout_effects apply_rollout_effect append_event_log
  rollout_effects-records db [] = refl
  rollout_effects-records db (record_rollout_transition i from to at ∷ fx) = ground (
    arith,
    rollout_effects-records
        (apply_rollout_effect io now db (record_rollout_transition i from to at)) fx,
  )
  rollout_effects-records db (update_current_wave i wave ∷ fx) = ground (
    arith,
    rollout_effects-records (apply_rollout_effect io now db (update_current_wave i wave)) fx,
  )
  rollout_effects-records db (insert_quarantine_from_rollout c closure ∷ fx) = ground (
    arith,
    rollout_effects-records
        (apply_rollout_effect io now db (insert_quarantine_from_rollout c closure)) fx,
  )
  rollout_effects-records db (schedule_pruning i delay ∷ fx) = rollout_effects-records db fx

  append-records :
      (db : Db) (id : RolloutId) (e : RolloutEvent)
      → (append_rollout_event io now db id e).host_rollout_records ≡ db.host_rollout_records
  unfolding append_rollout_event append_event_log
  append-records db id e = ground arith

  pub process_rollout_event-records :
      (db : Db) (e : RolloutEvent)
      → (process_rollout_event io now db e).host_rollout_records ≡ db.host_rollout_records
  unfolding process_rollout_event
  process_rollout_event-records db e =
      let id = rollout_event_rollout_id io now e in
      elim (Option-cases (rollout_row io db id)) [
        | inl q ↦ rw (process_rollout_event, q) refl
        | inr (row, q) ↦ elim (Result-cases (rollout_step row e now)) [
          | inr (_, p) ↦ rw (process_rollout_event, q, p) (append-records db id e)
          | inl ((_, fx), p) ↦
              rw (process_rollout_event, q, p)
                (rollout_effects-records (append_rollout_event io now db id e) fx
                  ∙ append-records db id e)
        ]
      ]

  pub tell_rollout-records :
      (db : Db) (host : HostId) (id : RolloutId) (from to : HostState)
      → (tell_rollout io now db host id from to).host_rollout_records ≡ db.host_rollout_records
  unfolding tell_rollout
  tell_rollout-records db host id from to =
      let e = host_state_changed id host from to now in
      ground (
        arith,
        process_rollout_event-records db e,
        process_rollout_event-records (process_rollout_event io now db e) (rollout_terminal id now),
      )

  module _ (manifests : SignedManifestSet) where
    effect-records :
        (db : Db) (fx : Effect)
        → OpensNone (fx ∷ [])
        → (apply_effect io manifests now db fx).host_rollout_records ≡ db.host_rollout_records
    unfolding apply_effect enqueue_dispatch append_event_log
    effect-records db fx none_opened = ground arith

    effects-records :
        (db : Db) (fx : List Effect)
        → OpensNone fx
        → (apply_effects io manifests now db fx).host_rollout_records ≡ db.host_rollout_records
    unfolding apply_effects
    effects-records db [] none_opened = refl
    effects-records db (fx ∷ fxs) none_opened =
        let (first, later) = OpensNone-cons fx fxs none_opened in
        effects-records (apply_effect io manifests now db fx) fxs later ∙ effect-records db fx first

    pub commit-records :
        (db : Db) (host : HostId) (id : RolloutId) (from : HostState) (next : HostRolloutState)
        (fx : List Effect)
        → io.succeeds (Statement.upsert_record next.rollout_id next.hostname) ≡ true
        → OpensNone fx
        → (commit io now manifests db host id from next fx).host_rollout_records
          ≡ upsert db.host_rollout_records next
    unfolding commit
    commit-records db host id from next fx written none_opened =
        let table = upsert db.host_rollout_records next in
        let done = apply_effects io manifests now (record db { host_rollout_records = table }) fx in
        rw written (
          tell_rollout-records done host id from next.state
          ∙ effects-records (record db { host_rollout_records = table }) fx none_opened)

    pub commit-refused :
        (db : Db) (host : HostId) (id : RolloutId) (from : HostState) (next : HostRolloutState)
        (fx : List Effect)
        → io.succeeds (Statement.upsert_record next.rollout_id next.hostname) ≡ false
        → commit io now manifests db host id from next fx ≡ db
    unfolding commit
    commit-refused db host id from next fx refused = rw refused refl
