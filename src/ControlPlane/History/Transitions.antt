-- ===== src/ControlPlane/History/Transitions.antt =====
-- An event of a rollout moves the rollout's row along the diagram and no other row.
use nixfleet.Prelude.{
  ℕ, ◌≡◌, inl, inr, refl, sym, subst, ◌∙◌, String, Option, none, some, List, [], ◌∷◌, ok, arith,
  if◌then◌else◌, ltb, Bool-cases, Option-cases, Result-cases, string_eq, pair_eq,
}
use nixfleet.Prelude.HashMap.{get, update, get-update, contains_key, insert-missing}
use nixfleet.Proto.{Time, RolloutId, rollout_id_eq, ChannelId, ClosureHash}
use nixfleet.Rollout.State.{
  RolloutState, RolloutRecord, opening, active, converging, terminal, reverted, failed, superseded,
  pruned, as_db_str,
}
use nixfleet.Rollout.Event.{
  RolloutEvent, RolloutEffect, record_rollout_transition, update_current_wave,
  insert_quarantine_from_rollout, schedule_pruning,
}
use nixfleet.Rollout.Transitions.{
  rollout_step, step_in, opening_step, active_step, converging_step, terminal_step, reverted_step,
  failed_step, superseded_step, pruned_step,
}
use nixfleet.Rollout.Diagram.{◌⇝◌, rollout_edges}
use nixfleet.ControlPlane.Json.{Json}
use nixfleet.ControlPlane.Io.{Io}
use nixfleet.ControlPlane.Store.{Db}
use nixfleet.ControlPlane.Store.Rollouts as Rollouts
use nixfleet.ControlPlane.Store.Quarantines.{QuarantineTable, insert_quarantine}
use nixfleet.ControlPlane.Store.EventLog.{EventLogKind, append}
use nixfleet.ControlPlane.Applier.RolloutEvents.{
  append_event_log, append_rollout_event, apply_rollout_effect, apply_rollout_effects, rollout_row,
  process_rollout_event, rollout_event_rollout_id,
}
use nixfleet.ControlPlane.History.{
  stay, ◌then◌, Follows, Follows-refl, Advanced, Extends, Extends-refl, Later, IsKeyed, HasKey,
  Later-refl, Later-trans, Later-if, same_rollouts, unchanged,
}

some-injective {ℓ} : {A : Type ℓ} (a b : A) → some a ≡ some b → a ≡ b
some-injective a b q = ground arith

-- Effects that only bump the wave cursor of one rollout.
abbrev pub WavesOnly : RolloutId → List RolloutEffect → Type 0
WavesOnly id [] = Unit
WavesOnly id (update_current_wave i _ ∷ fx) = (i ≡ id) × WavesOnly id fx
WavesOnly id (_ ∷ fx) = ⊥

-- The effects of one step: at most one transition, along an edge from the row's state, and then bumps.
abbrev pub Lawful : RolloutRecord → List RolloutEffect → Type 0
Lawful r (record_rollout_transition i _ to _ ∷ fx) =
    (i ≡ r.rollout_id) × (r.state ⇝ to) × WavesOnly r.rollout_id fx
Lawful r fx = WavesOnly r.rollout_id fx

step_in-Lawful :
    (h : RolloutState) (r : RolloutRecord) (e : RolloutEvent) (now : Time) {r' : RolloutRecord}
    {fx : List RolloutEffect}
    → r.state ≡ h
    → step_in h r e now ≡ ok (r', fx)
    → Lawful r fx
unfolding step_in opening_step active_step converging_step terminal_step reverted_step failed_step
    superseded_step pruned_step
step_in-Lawful opening r e now q h = grind (arith, rollout_edges)
step_in-Lawful active r e now q h = grind (arith, rollout_edges)
step_in-Lawful converging r e now q h = grind (arith, rollout_edges)
step_in-Lawful terminal r e now q h = grind (arith, rollout_edges)
step_in-Lawful reverted r e now q h = grind (arith, rollout_edges)
step_in-Lawful failed r e now q h = grind (arith, rollout_edges)
step_in-Lawful superseded r e now q h = grind (arith, rollout_edges)
step_in-Lawful pruned r e now q h = grind (arith, rollout_edges)

module _ (io : Io) (now : Time) where
  pub append_event_log-Later :
      (db : Db) (host_id rollout_id : Option String) (kind : EventLogKind) (payload : Json)
      → Later db (append_event_log io now db host_id rollout_id kind payload)
  unfolding append_event_log append
  append_event_log-Later db host_id rollout_id kind payload =
      Later-if _ db _ db
        (record {
          rollouts = same_rollouts db;
          event_log = (_, refl);
          quarantines = Extends-refl db.quarantined_closures;
          probe_failures = Extends-refl db.probe_failures;
        })
        (Later-refl db)

  -- The rollouts of the table are changed and the rest of it is kept.
  pub with_rollouts-Later :
      (db : Db) (table : Rollouts.RolloutTable)
      → ((id : RolloutId) → Advanced id (get db.rollouts id) (get table id))
      → Later db (record db { rollouts = table })
  with_rollouts-Later db table advanced = record {
    rollouts = advanced;
    event_log = Extends-refl db.event_log;
    quarantines = Extends-refl db.quarantined_closures;
    probe_failures = Extends-refl db.probe_failures;
  }

  changed :
      (j : RolloutId) (o : Option RolloutRecord) (f : RolloutRecord → RolloutRecord)
      → ((r : RolloutRecord) → o ≡ some r → Follows r (f r))
      → Advanced j o (elim o [ none ↦ none | some r ↦ some (f r) ])
  changed j none f follows = tt
  changed j (some r) f follows = follows r refl

  -- An update of one row that follows it.
  update-Advanced :
      (table : Rollouts.RolloutTable) (id : RolloutId) (f : RolloutRecord → RolloutRecord)
      → ((r : RolloutRecord) → get table id ≡ some r → Follows r (f r))
      → (j : RolloutId) → Advanced j (get table j) (get (update table id f) j)
  update-Advanced table id f follows j =
      subst (λ o. Advanced j (get table j) o) (sym (get-update table id f j))
        (elim (Bool-cases (rollout_id_eq.beq id j)) [
          | inl q ↦ rw q (
              changed j (get table j) f
                (λ r h. follows r (rw ((rollout_id_eq.beq_iff id j).0 q) h)))
          | inr q ↦ rw q (unchanged j (get table j))
        ])

  pub insert_quarantine-Extends :
      (table : QuarantineTable) (c : ChannelId) (closure : ClosureHash) (at : Time) (seq : Option ℕ)
      → Extends table (insert_quarantine table c closure at seq)
  unfolding insert_quarantine contains_key
  insert_quarantine-Extends table c closure at seq = elim (Option-cases (get table (c, closure))) [
    | inl q ↦ rw q (_, insert-missing table (c, closure) _ q)
    | inr (row, q) ↦ rw q (Extends-refl table)
  ]

  pub step-Lawful :
      (r : RolloutRecord) (e : RolloutEvent) {r' : RolloutRecord} {fx : List RolloutEffect}
      → rollout_step r e now ≡ ok (r', fx)
      → Lawful r fx
  unfolding rollout_step
  step-Lawful r e h = step_in-Lawful r.state r e now refl h

  transitioned-Follows :
      (r : RolloutRecord) (to : RolloutState) (at : Time) (seq : Option ℕ)
      → r.state ⇝ to
      → Follows r (Rollouts.transitioned to at seq r)
  unfolding Rollouts.transitioned as_db_str
  transitioned-Follows r to at seq e = record {
    path = elim (Bool-cases (Rollouts.state_beq r.state to)) [
      | inl q ↦ rw (Rollouts.transitioned, q) stay
      | inr q ↦ rw (Rollouts.transitioned, q) (e then stay)
    ];
    wave = ground arith;
    rollout_id = ground arith;
    channel = ground arith;
    target_ref = ground arith;
    opened_at = ground arith;
  }

  with_wave-Follows :
      (r : RolloutRecord) (wave : ℕ) (seq : Option ℕ) → Follows r (Rollouts.with_wave wave seq r)
  unfolding Rollouts.with_wave
  with_wave-Follows r wave seq = elim (Bool-cases (ltb r.current_wave wave)) [
    | inl q ↦
        rw (Rollouts.with_wave, q)
          (record {
            path = stay;
            wave = ground arith;
            rollout_id = refl;
            channel = refl;
            target_ref = refl;
            opened_at = refl;
          })
    | inr q ↦ rw (Rollouts.with_wave, q) (Follows-refl r)
  ]

  pub set_current_wave-Later :
      (db : Db) (id : RolloutId) (wave : ℕ) (seq : Option ℕ)
      → Later db (record db { rollouts = Rollouts.set_current_wave db.rollouts id wave seq })
  unfolding Rollouts.set_current_wave
  set_current_wave-Later db id wave seq = with_rollouts-Later db _ (
      update-Advanced db.rollouts id (Rollouts.with_wave wave seq)
        (λ r h. with_wave-Follows r wave seq))

  waves-Later :
      (db : Db) (id : RolloutId) (fx : List RolloutEffect)
      → WavesOnly id fx
      → Later db (apply_rollout_effects io now db fx)
  unfolding apply_rollout_effects apply_rollout_effect
  waves-Later db id [] w = Later-refl db
  waves-Later db id (update_current_wave i wave ∷ fx) (_, w) =
      let next = apply_rollout_effect io now db (update_current_wave i wave) in
      Later-trans db next (apply_rollout_effects io now next fx)
        (Later-if _ db _ db (set_current_wave-Later db i wave none) (Later-refl db))
        (waves-Later next id fx w)
  waves-Later db id (record_rollout_transition _ _ _ _ ∷ fx) w = elim w [ ]
  waves-Later db id (insert_quarantine_from_rollout _ _ ∷ fx) w = elim w [ ]
  waves-Later db id (schedule_pruning _ _ ∷ fx) w = elim w [ ]

  transition-Later :
      (db : Db) (r : RolloutRecord) (id : RolloutId) (from to : RolloutState) (at : Time)
      → get db.rollouts id ≡ some r
      → r.state ⇝ to
      → Later db (apply_rollout_effect io now db (record_rollout_transition id from to at))
  unfolding apply_rollout_effect Rollouts.record_rollout_transition
  transition-Later db r id from to at found e =
      Later-trans db _ _
        (Later-if _ db _ db
          (with_rollouts-Later db _ (
            update-Advanced db.rollouts id (Rollouts.transitioned to at none) (λ s h.
              transitioned-Follows s to at none (
                subst (λ (x : RolloutRecord). x.state ⇝ to) (some-injective r s (sym found ∙ h))
                  e))))
          (Later-refl db))
        (append_event_log-Later _ _ _ _ _)

  effects-Later :
      (db : Db) (r : RolloutRecord) (id : RolloutId) (fx : List RolloutEffect)
      → get db.rollouts id ≡ some r
      → r.rollout_id ≡ id
      → Lawful r fx
      → Later db (apply_rollout_effects io now db fx)
  unfolding apply_rollout_effects
  effects-Later db r id [] found key w = Later-refl db
  effects-Later db r id (record_rollout_transition i from to at ∷ fx) found key (same, e, w) =
      let next = apply_rollout_effect io now db (record_rollout_transition i from to at) in
      Later-trans db next (apply_rollout_effects io now next fx)
        (transition-Later db r i from to at
          (subst (λ x. get db.rollouts x ≡ some r) (sym (same ∙ key)) found) e)
        (waves-Later next r.rollout_id fx w)
  effects-Later db r id (update_current_wave i wave ∷ fx) found key w =
      waves-Later db r.rollout_id (update_current_wave i wave ∷ fx) w
  effects-Later db r id (insert_quarantine_from_rollout _ _ ∷ fx) found key w = elim w [ ]
  effects-Later db r id (schedule_pruning _ _ ∷ fx) found key w = elim w [ ]

  rollout_row-get :
      (db : Db) (id : RolloutId) (r : RolloutRecord)
      → rollout_row io db id ≡ some r
      → get db.rollouts id ≡ some r
  unfolding rollout_row Rollouts.state
  rollout_row-get db id r h = ground arith

  append-rollouts :
      (db : Db) (id : RolloutId) (e : RolloutEvent)
      → (append_rollout_event io now db id e).rollouts ≡ db.rollouts
  unfolding append_rollout_event append_event_log
  append-rollouts db id e = ground arith

  pub append_rollout_event-Later :
      (db : Db) (id : RolloutId) (e : RolloutEvent) → Later db (append_rollout_event io now db id e)
  unfolding append_rollout_event
  append_rollout_event-Later db id e = append_event_log-Later db none (some id.text) _ _

  -- The tables after a rollout's event, whether its row is missing, or the reducer refuses the event.
  pub process_rollout_event-Later :
      (db : Db) (e : RolloutEvent) → IsKeyed db → Later db (process_rollout_event io now db e)
  unfolding process_rollout_event
  process_rollout_event-Later db e keyed =
      let id = rollout_event_rollout_id io now e in
      elim (Option-cases (rollout_row io db id)) [
        | inl q ↦ rw (process_rollout_event, q) (Later-refl db)
        | inr (row, q) ↦ elim (Result-cases (rollout_step row e now)) [
          | inr (_, p) ↦ rw (process_rollout_event, q, p) (append_rollout_event-Later db id e)
          | inl ((_, fx), p) ↦
              let found = rollout_row-get db id row q in
              let key = subst (λ o. HasKey id o) found (keyed id) in
              rw (process_rollout_event, q, p)
                (Later-trans db (append_rollout_event io now db id e) _
                  (append_rollout_event-Later db id e)
                  (effects-Later (append_rollout_event io now db id e) row id fx
                    (rw (append-rollouts db id e) found) key (step-Lawful row e p)))
        ]
      ]
