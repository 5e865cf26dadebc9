-- ===== src/ControlPlane/History/Elsewhere.antt =====
-- An event of a rollout changes no row but the rollout's own.
use nixfleet.Prelude.{
  ◌≡◌, ◌≢◌, inl, inr, refl, sym, ◌∙◌, ap, none, some, List, [], ◌∷◌, arith, Option-cases,
  Result-cases, Bool-cases, string_eq,
}
use nixfleet.Prelude.HashMap.{get, update, get-update}
use nixfleet.Proto.{Time, RolloutId, rollout_id_eq}
use nixfleet.Rollout.State.{RolloutRecord}
use nixfleet.Rollout.Event.{
  RolloutEvent, RolloutEffect, record_rollout_transition, update_current_wave,
  insert_quarantine_from_rollout, schedule_pruning,
}
use nixfleet.Rollout.Transitions.{rollout_step}
use nixfleet.ControlPlane.Io.{Io}
use nixfleet.ControlPlane.Store.{Db}
use nixfleet.ControlPlane.Store.Rollouts as Rollouts
use nixfleet.ControlPlane.Applier.RolloutEvents.{
  append_event_log, append_rollout_event, apply_rollout_effect, apply_rollout_effects, rollout_row,
  process_rollout_event, rollout_event_rollout_id,
}
use nixfleet.ControlPlane.History.{IsKeyed}
use nixfleet.ControlPlane.History.Transitions.{WavesOnly, Lawful, step-Lawful}

-- The effects write no row but that of the rollout.
abbrev Targets : RolloutId → List RolloutEffect → Type 0
Targets id [] = Unit
Targets id (record_rollout_transition i _ _ _ ∷ fx) = (i ≡ id) × Targets id fx
Targets id (update_current_wave i _ ∷ fx) = (i ≡ id) × Targets id fx
Targets id (_ ∷ fx) = Targets id fx

WavesOnly-Targets : (id : RolloutId) (fx : List RolloutEffect) → WavesOnly id fx → Targets id fx
WavesOnly-Targets id [] h = tt
WavesOnly-Targets id (update_current_wave i w ∷ fx) (same, h) = (same, WavesOnly-Targets id fx h)
WavesOnly-Targets id (record_rollout_transition i a b c ∷ fx) h = elim h [ ]
WavesOnly-Targets id (insert_quarantine_from_rollout c k ∷ fx) h = elim h [ ]
WavesOnly-Targets id (schedule_pruning i d ∷ fx) h = elim h [ ]

Lawful-Targets :
    (r : RolloutRecord) (fx : List RolloutEffect) → Lawful r fx → Targets r.rollout_id fx
Lawful-Targets r [] h = tt
Lawful-Targets r (record_rollout_transition i a b c ∷ fx) (same, _, h) =
    (same, WavesOnly-Targets r.rollout_id fx h)
Lawful-Targets r (update_current_wave i w ∷ fx) (same, h) =
    (same, WavesOnly-Targets r.rollout_id fx h)
Lawful-Targets r (insert_quarantine_from_rollout c k ∷ fx) h = elim h [ ]
Lawful-Targets r (schedule_pruning i d ∷ fx) h = elim h [ ]

update-other :
    (table : Rollouts.RolloutTable) (i j : RolloutId) (f : RolloutRecord → RolloutRecord)
    → j ≢ i
    → get (update table i f) j ≡ get table j
update-other table i j f other =
    get-update table i f j ∙ elim (Bool-cases (rollout_id_eq.beq i j)) [
      | inl same ↦ absurd (other (sym ((rollout_id_eq.beq_iff i j).0 same)))
      | inr q ↦ rw q refl
    ]

module _ (io : Io) (now : Time) where
  effects-elsewhere :
      (db : Db) (fx : List RolloutEffect) (id j : RolloutId)
      → Targets id fx
      → j ≢ id
      → get (apply_rollout_effects io now db fx).rollouts j ≡ get db.rollouts j
  unfolding apply_rollout_effects apply_rollout_effect append_event_log
      Rollouts.record_rollout_transition Rollouts.set_current_wave
  effects-elsewhere db [] id j h other = refl
  effects-elsewhere db (record_rollout_transition i from to at ∷ fx) id j (same, h) other = ground (
    arith,
    effects-elsewhere (apply_rollout_effect io now db (record_rollout_transition i from to at)) fx
        id j h other,
    update-other db.rollouts i j (Rollouts.transitioned to at none) (λ q. other (q ∙ same)),
  )
  effects-elsewhere db (update_current_wave i wave ∷ fx) id j (same, h) other = ground (
    arith,
    effects-elsewhere (apply_rollout_effect io now db (update_current_wave i wave)) fx id j h other,
    update-other db.rollouts i j (Rollouts.with_wave wave none) (λ q. other (q ∙ same)),
  )
  effects-elsewhere db (insert_quarantine_from_rollout c closure ∷ fx) id j h other = ground (
    arith,
    effects-elsewhere (apply_rollout_effect io now db (insert_quarantine_from_rollout c closure)) fx
        id j h other,
  )
  effects-elsewhere db (schedule_pruning i delay ∷ fx) id j h other =
      effects-elsewhere db fx id j h other

  logged-rollouts :
      (db : Db) (id : RolloutId) (e : RolloutEvent)
      → (append_rollout_event io now db id e).rollouts ≡ db.rollouts
  unfolding append_rollout_event append_event_log
  logged-rollouts db id e = ground arith

  row-HasKey :
      (db : Db) (id : RolloutId) (row : RolloutRecord)
      → IsKeyed db
      → rollout_row io db id ≡ some row
      → row.rollout_id ≡ id
  unfolding rollout_row Rollouts.state
  row-HasKey db id row keyed q = ground (arith, keyed id)

  pub process-elsewhere :
      (db : Db) (e : RolloutEvent) (j : RolloutId)
      → IsKeyed db
      → j ≢ rollout_event_rollout_id io now e
      → get (process_rollout_event io now db e).rollouts j ≡ get db.rollouts j
  unfolding process_rollout_event
  process-elsewhere db e j keyed other =
      let id = rollout_event_rollout_id io now e in
      let logged = append_rollout_event io now db id e in
      let kept = ap (λ t. get t j) (logged-rollouts db id e) in
      elim (Option-cases (rollout_row io db id)) [
        | inl q ↦ rw (process_rollout_event, q) refl
        | inr (row, q) ↦ elim (Result-cases (rollout_step row e now)) [
          | inr (_, p) ↦ rw (process_rollout_event, q, p) kept
          | inl ((_, fx), p) ↦
              rw (process_rollout_event, q, p)
                (effects-elsewhere logged fx row.rollout_id j
                    (Lawful-Targets row fx (step-Lawful io now row e p))
                    (λ s. other (s ∙ row-HasKey db id row keyed q))
                  ∙ kept)
        ]
      ]
