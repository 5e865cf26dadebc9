-- ===== src/ControlPlane/History/Ended.antt =====
-- Which events of a rollout make a row `Terminal`: only the end of a rollout does, and no effect of a
-- host does.
use nixfleet.Prelude.{
  ℕ, ◌≡◌, ◌⊎◌, inl, inr, refl, sym, subst, ap, ◌∙◌, Bool, true, false, Option, none, some, List, [],
  ◌∷◌, ok, arith, if◌then◌else◌, Option-cases, Result-cases, string_eq, pair_eq,
}
use nixfleet.Prelude.HashMap.{get, update, get-update}
use nixfleet.Proto.{Time, RolloutId, rollout_id_eq}
use nixfleet.Host.Event.{seq}
use nixfleet.Host.Effect.{Effect}
use nixfleet.Rollout.State.{
  RolloutState, RolloutRecord, opening, active, converging, terminal, reverted, failed, superseded,
  pruned, as_db_str,
}
use nixfleet.Rollout.Event.{
  RolloutEvent, RolloutEffect, record_rollout_transition, update_current_wave,
  insert_quarantine_from_rollout, schedule_pruning, rollout_terminal,
}
use nixfleet.Rollout.Transitions.{
  rollout_step, step_in, opening_step, active_step, converging_step, terminal_step, reverted_step,
  failed_step, superseded_step, pruned_step,
}
use nixfleet.Planner.Types.{SignedManifestSet}
use nixfleet.ControlPlane.Io.{Io}
use nixfleet.ControlPlane.Store.{Db}
use nixfleet.ControlPlane.Store.Rollouts as Rollouts
use nixfleet.ControlPlane.Applier.{
  apply_effect, apply_effects, enqueue_dispatch, open_one_rollout_record,
}
use nixfleet.ControlPlane.Applier.RolloutEvents.{
  append_event_log, append_rollout_event, apply_rollout_effect, apply_rollout_effects, rollout_row,
  process_rollout_event, rollout_event_rollout_id,
}

-- A row that has not become `Terminal`: its state is what it was, or another one.
abbrev pub is_terminal : RolloutState → Bool
is_terminal terminal = true
is_terminal _ = false

abbrev pub NotEnded : Option RolloutRecord → Option RolloutRecord → Type 0
NotEnded o none = Unit
NotEnded none (some s) = is_terminal s.state ≡ false
NotEnded (some r) (some s) = (s.state ≡ r.state) ⊎ (is_terminal s.state ≡ false)

pub NotEnded-refl : (o : Option RolloutRecord) → NotEnded o o
NotEnded-refl none = tt
NotEnded-refl (some r) = inl refl

NotEnded-same : (o p : Option RolloutRecord) → p ≡ o → NotEnded o p
NotEnded-same o p q = subst (λ x. NotEnded o x) (sym q) (NotEnded-refl o)

-- Effects that end no rollout.
abbrev EndsNone : List RolloutEffect → Type 0
EndsNone [] = Unit
EndsNone (record_rollout_transition _ _ to _ ∷ fx) = (is_terminal to ≡ false) × EndsNone fx
EndsNone (_ ∷ fx) = EndsNone fx

EndsNone-cons :
    (fx : RolloutEffect) (fxs : List RolloutEffect)
    → EndsNone (fx ∷ fxs)
    → EndsNone (fx ∷ []) × EndsNone fxs
EndsNone-cons fx fxs h = ground arith

-- The event is not the end of a rollout.
abbrev is_end : RolloutEvent → Bool
is_end (rollout_terminal _ _) = true
is_end _ = false

step_in-EndsNone :
    (h : RolloutState) (r : RolloutRecord) (e : RolloutEvent) (now : Time) {r' : RolloutRecord}
    {fx : List RolloutEffect}
    → is_end e ≡ false
    → step_in h r e now ≡ ok (r', fx)
    → EndsNone fx
unfolding step_in opening_step active_step converging_step terminal_step reverted_step failed_step
    superseded_step pruned_step
step_in-EndsNone opening r e now q h = ground arith
step_in-EndsNone active r e now q h = ground arith
step_in-EndsNone converging r e now q h = ground arith
step_in-EndsNone terminal r e now q h = ground arith
step_in-EndsNone reverted r e now q h = ground arith
step_in-EndsNone failed r e now q h = ground arith
step_in-EndsNone superseded r e now q h = ground arith
step_in-EndsNone pruned r e now q h = ground arith

NotEnded-trans : (o p q : Option RolloutRecord) → NotEnded o p → NotEnded p q → NotEnded o q
NotEnded-trans o p none f g = tt
NotEnded-trans none none (some t) f g = g
NotEnded-trans (some r) none (some t) f g = inr g
NotEnded-trans none (some s) (some t) f g = ground arith
NotEnded-trans (some r) (some s) (some t) f g = ground arith

-- No row has become `Terminal`.
abbrev pub EndsNo : Db → Db → Type 0
EndsNo a b = (j : RolloutId) → NotEnded (get a.rollouts j) (get b.rollouts j)

pub same-EndsNo : (a b : Db) → b.rollouts ≡ a.rollouts → EndsNo a b
same-EndsNo a b q = λ j. NotEnded-same (get a.rollouts j) (get b.rollouts j) (ap (λ t. get t j) q)

pub EndsNo-trans : (a b c : Db) → EndsNo a b → EndsNo b c → EndsNo a c
EndsNo-trans a b c f g =
    λ j. NotEnded-trans (get a.rollouts j) (get b.rollouts j) (get c.rollouts j) (f j) (g j)

-- An update of one row that does not end it.
updated-NotEnded :
    (o : Option RolloutRecord) (f : RolloutRecord → RolloutRecord) (b : Bool)
    → ((r : RolloutRecord) → NotEnded (some r) (some (f r)))
    → NotEnded o (if b then elim o [ none ↦ none | some r ↦ some (f r) ] else o)
updated-NotEnded none f true h = tt
updated-NotEnded (some r) f true h = h r
updated-NotEnded o f false h = NotEnded-refl o

update-NotEnded :
    (table : Rollouts.RolloutTable) (i : RolloutId) (f : RolloutRecord → RolloutRecord)
    → ((r : RolloutRecord) → NotEnded (some r) (some (f r)))
    → (j : RolloutId) → NotEnded (get table j) (get (update table i f) j)
update-NotEnded table i f h j =
    subst (λ o. NotEnded (get table j) o) (sym (get-update table i f j))
      (updated-NotEnded (get table j) f (rollout_id_eq.beq i j) h)

transitioned-NotEnded :
    (to : RolloutState) (at : Time) (seq : Option ℕ) (r : RolloutRecord)
    → is_terminal to ≡ false
    → NotEnded (some r) (some (Rollouts.transitioned to at seq r))
unfolding Rollouts.transitioned as_db_str
transitioned-NotEnded to at seq r h = ground arith

with_wave-NotEnded :
    (wave : ℕ) (seq : Option ℕ) (r : RolloutRecord)
    → NotEnded (some r) (some (Rollouts.with_wave wave seq r))
unfolding Rollouts.with_wave
with_wave-NotEnded wave seq r = ground arith

module _ (io : Io) (now : Time) where
  effect-EndsNo :
      (db : Db) (fx : RolloutEffect)
      → EndsNone (fx ∷ [])
      → EndsNo db (apply_rollout_effect io now db fx)
  unfolding apply_rollout_effect append_event_log Rollouts.record_rollout_transition
      Rollouts.set_current_wave
  effect-EndsNo db (record_rollout_transition i from to at) (h, _) j =
      let next =
        update-NotEnded db.rollouts i (Rollouts.transitioned to at none)
          (λ r. transitioned-NotEnded to at none r h) j in
      ground (arith, next, NotEnded-refl (get db.rollouts j))
  effect-EndsNo db (update_current_wave i wave) _ j =
      let next =
        update-NotEnded db.rollouts i (Rollouts.with_wave wave none)
          (λ r. with_wave-NotEnded wave none r) j in
      ground (arith, next, NotEnded-refl (get db.rollouts j))
  effect-EndsNo db (insert_quarantine_from_rollout c closure) _ j =
      ground (arith, NotEnded-refl (get db.rollouts j))
  effect-EndsNo db (schedule_pruning i delay) _ j = NotEnded-refl (get db.rollouts j)

  effects-EndsNo :
      (db : Db) (fx : List RolloutEffect)
      → EndsNone fx
      → EndsNo db (apply_rollout_effects io now db fx)
  unfolding apply_rollout_effects
  effects-EndsNo db [] h = λ j. NotEnded-refl (get db.rollouts j)
  effects-EndsNo db (fx ∷ fxs) h =
      let next = apply_rollout_effect io now db fx in
      let (first, later) = EndsNone-cons fx fxs h in
      EndsNo-trans db next (apply_rollout_effects io now next fxs) (effect-EndsNo db fx first)
        (effects-EndsNo next fxs later)

  append-rollouts :
      (db : Db) (id : RolloutId) (e : RolloutEvent)
      → (append_rollout_event io now db id e).rollouts ≡ db.rollouts
  unfolding append_rollout_event append_event_log
  append-rollouts db id e = ground arith

  pub process-EndsNo :
      (db : Db) (e : RolloutEvent)
      → is_end e ≡ false
      → EndsNo db (process_rollout_event io now db e)
  unfolding process_rollout_event rollout_step
  process-EndsNo db e other =
      let id = rollout_event_rollout_id io now e in
      let logged = append_rollout_event io now db id e in
      let kept = same-EndsNo db logged (append-rollouts db id e) in
      elim (Option-cases (rollout_row io db id)) [
        | inl q ↦ rw (process_rollout_event, q) (same-EndsNo db db refl)
        | inr (row, q) ↦ elim (Result-cases (rollout_step row e now)) [
          | inr (_, p) ↦ rw (process_rollout_event, q, p) kept
          | inl ((_, fx), p) ↦
              rw (process_rollout_event, q, p)
                (EndsNo-trans db logged (apply_rollout_effects io now logged fx) kept
                  (effects-EndsNo logged fx (step_in-EndsNone row.state row e now other p)))
        ]
      ]

  module _ (manifests : SignedManifestSet) where
    host_effect-rollouts :
        (db : Db) (fx : Effect) → (apply_effect io manifests now db fx).rollouts ≡ db.rollouts
    unfolding apply_effect enqueue_dispatch append_event_log open_one_rollout_record
    host_effect-rollouts db fx = ground arith

    pub host_effects-rollouts :
        (db : Db) (fx : List Effect) → (apply_effects io manifests now db fx).rollouts ≡ db.rollouts
    unfolding apply_effects
    host_effects-rollouts db [] = refl
    host_effects-rollouts db (fx ∷ fxs) =
        host_effects-rollouts (apply_effect io manifests now db fx) fxs ∙ host_effect-rollouts db fx
