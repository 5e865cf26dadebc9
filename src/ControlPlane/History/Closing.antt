-- ===== src/ControlPlane/History/Closing.antt =====
-- A rollout whose turn comes in `supersede_all` is closed, and stays closed.
use nixfleet.Prelude.{
  ◌≡◌, inl, inr, refl, sym, subst, Bool, true, false, Option, none, some, List, [], ◌∷◌, ok, arith,
  Any, here, there, Option-cases, Bool-cases, string_eq,
}
use nixfleet.Prelude.HashMap.{get, get-update}
use nixfleet.Proto.{Time, RolloutId, rollout_id_eq, ChannelId, ChannelRef}
use nixfleet.Rollout.State.{
  RolloutState, RolloutRecord, opening, active, converging, terminal, reverted, failed, superseded,
  pruned, as_db_str,
}
use nixfleet.Rollout.Event.{successor_opened, record_rollout_transition, rollout_opened}
use nixfleet.Rollout.Transitions.{
  rollout_step, step_in, opening_step, active_step, converging_step, terminal_step, reverted_step,
  failed_step, superseded_step, pruned_step,
}
use nixfleet.Rollout.Diagram.{◌⇝◌, prune_superseded}
use nixfleet.Planner.Types.{SignedManifestSet}
use nixfleet.ControlPlane.Io.{Io, Statement}
use nixfleet.ControlPlane.Store.{Db}
use nixfleet.ControlPlane.Store.Rollouts as Rollouts
use nixfleet.ControlPlane.Applier.{supersede_all, opened_over}
use nixfleet.ControlPlane.Applier.RolloutEvents.{
  append_event_log, append_rollout_event, apply_rollout_effect, apply_rollout_effects, rollout_row,
  process_rollout_event, rollout_event_rollout_id,
}
use nixfleet.ControlPlane.History.{
  ◌⇝*◌, stay, ◌then◌, Advanced, Later-trans, IsKeyed, HasKey, Later-IsKeyed,
}
use nixfleet.ControlPlane.History.Transitions.{
  process_rollout_event-Later, append_rollout_event-Later, with_rollouts-Later,
}
use nixfleet.ControlPlane.History.Applied.{inserted-Advanced, supersede_all-Later}

abbrev pub is_open : RolloutState → Bool
is_open h = Rollouts.is_listed false h

-- The row is there, and no query for open rollouts lists it.
abbrev pub Closed : Option RolloutRecord → Type 0
Closed none = ⊥
Closed (some r) = Rollouts.is_listed false r.state ≡ false

closed-⇝ : (a b : RolloutState) → a ⇝ b → is_open a ≡ false → is_open b ≡ false
closed-⇝ a b prune_superseded h = refl
closed-⇝ a b e h = ground arith

closed-⇝* : (a b : RolloutState) → a ⇝* b → is_open a ≡ false → is_open b ≡ false
closed-⇝* a b stay h = h
closed-⇝* a b (◌then◌ {b = c} e p) h = closed-⇝* c b p (closed-⇝ a c e h)

pub Advanced-Closed :
    (j : RolloutId) (o p : Option RolloutRecord) → Advanced j o p → Closed o → Closed p
Advanced-Closed j none p a c = elim c [ ]
Advanced-Closed j (some r) none a c = elim a [ ]
Advanced-Closed j (some r) (some s) a c = closed-⇝* r.state s.state a.path c

-- A row that is there stays there.
abbrev pub Present : Option RolloutRecord → Type 0
Present none = ⊥
Present (some r) = Unit

Advanced-Present :
    (j : RolloutId) (o p : Option RolloutRecord) → Advanced j o p → Present o → Present p
Advanced-Present j none p a c = elim c [ ]
Advanced-Present j (some r) none a c = elim a [ ]
Advanced-Present j (some r) (some s) a c = tt

supersede-step :
    (h : RolloutState) (r : RolloutRecord) (j id : RolloutId) (at now : Time)
    → r.state ≡ h
    → is_open h ≡ true
    → step_in h r (successor_opened j id at) now
      ≡ ok (
        record r { state = superseded; superseded_at = some at },
        record_rollout_transition r.rollout_id h superseded at ∷ [],
      )
unfolding step_in opening_step active_step converging_step terminal_step reverted_step failed_step
    superseded_step pruned_step
supersede-step opening r j id at now q o = refl
supersede-step active r j id at now q o = refl
supersede-step converging r j id at now q o = refl
supersede-step terminal r j id at now q o = refl
supersede-step reverted r j id at now q o = refl
supersede-step failed r j id at now q o = refl
supersede-step superseded r j id at now q o = ground arith
supersede-step pruned r j id at now q o = ground arith

superseded_text : (h : RolloutState) → Rollouts.state_beq h superseded ≡ true → is_open h ≡ false
unfolding as_db_str
superseded_text opening q = ground arith
superseded_text active q = ground arith
superseded_text converging q = ground arith
superseded_text terminal q = ground arith
superseded_text reverted q = ground arith
superseded_text failed q = ground arith
superseded_text superseded q = refl
superseded_text pruned q = refl

transitioned-Closed :
    (r : RolloutRecord) (at : Time) → Closed (some (Rollouts.transitioned superseded at none r))
unfolding Rollouts.transitioned
transitioned-Closed r at = elim (Bool-cases (Rollouts.state_beq r.state superseded)) [
  | inl q ↦ rw (Rollouts.transitioned, q) (superseded_text r.state q)
  | inr q ↦ rw (Rollouts.transitioned, q) refl
]

updated-Closed :
    (table : Rollouts.RolloutTable) (j : RolloutId) (r : RolloutRecord) (at : Time)
    → get table j ≡ some r
    → Closed (get (Rollouts.record_rollout_transition table j superseded at none) j)
unfolding Rollouts.record_rollout_transition
updated-Closed table j r at found =
    rw (get-update, (rollout_id_eq.beq_iff j j).1 refl, found) (transitioned-Closed r at)

module _ (io : Io) (now : Time) (sound : (st : Statement) → io.succeeds st ≡ true) where
  effect-Closed :
      (db : Db) (i j : RolloutId) (r : RolloutRecord) (from : RolloutState) (at : Time)
      → i ≡ j
      → get db.rollouts j ≡ some r
      → Closed (
          get
            (apply_rollout_effects io now db
              (record_rollout_transition i from superseded at ∷ [])).rollouts
            j)
  unfolding apply_rollout_effects apply_rollout_effect append_event_log
  effect-Closed db i j r from at same found =
      rw
        (
          same,
          sound (Statement.record_rollout_transition j superseded),
          sound (Statement.append_event _),
        )
        (updated-Closed db.rollouts j r at found)

  append-rollouts :
      (db : Db) (id : RolloutId) (e : _)
      → (append_rollout_event io now db id e).rollouts ≡ db.rollouts
  unfolding append_rollout_event append_event_log
  append-rollouts db id e = ground arith

  -- A predecessor's turn: it is closed already, or it becomes `Superseded`.
  turn-Closed :
      (db : Db) (j id : RolloutId)
      → IsKeyed db
      → Present (get db.rollouts j)
      → Closed (get (process_rollout_event io now db (successor_opened j id now)).rollouts j)
  unfolding process_rollout_event rollout_step rollout_row Rollouts.state rollout_event_rollout_id
  turn-Closed db j id keyed present = elim (Option-cases (get db.rollouts j)) [
    | inl q ↦ elim (subst Present q present) [ ]
    | inr (r, q) ↦ elim (Bool-cases (is_open r.state)) [
      | inl o ↦
          rw
            (
              process_rollout_event,
              sound (Statement.rollout_state j),
              q,
              supersede-step r.state r j id now now refl o,
            )
            (effect-Closed (append_rollout_event io now db j (successor_opened j id now))
              r.rollout_id j r r.state now (subst (λ x. HasKey j x) q (keyed j))
              (rw (append-rollouts db j (successor_opened j id now)) q))
      | inr c ↦
          Advanced-Closed j (get db.rollouts j) _
            ((process_rollout_event-Later io now db (successor_opened j id now) keyed).rollouts j)
            (rw q c)
    ]
  ]

  module _ (manifests : SignedManifestSet) where
    -- Once its turn has come, a predecessor is closed, and stays so.
    supersede_all-kept :
        (db : Db) (id j : RolloutId) (ps : List RolloutId)
        → IsKeyed db
        → Closed (get db.rollouts j)
        → Closed (get (supersede_all io manifests now db id ps).rollouts j)
    supersede_all-kept db id j ps keyed closed =
        Advanced-Closed j (get db.rollouts j) _
          ((supersede_all-Later io manifests now db id ps keyed).rollouts j) closed

    supersede_all-Closed :
        (db : Db) (id j : RolloutId) (ps : List RolloutId)
        → IsKeyed db
        → Present (get db.rollouts j)
        → Any (λ (p : RolloutId). p ≡ j) ps
        → Closed (get (supersede_all io manifests now db id ps).rollouts j)
    unfolding supersede_all
    supersede_all-Closed db id j [] keyed present h = elim h [ ]
    supersede_all-Closed db id j (p ∷ ps) keyed present (here same) =
        let next = process_rollout_event io now db (successor_opened p id now) in
        let l = process_rollout_event-Later io now db (successor_opened p id now) keyed in
        supersede_all-kept next id j ps (Later-IsKeyed db next keyed l) (
          subst
            (λ x.
              Closed (get (process_rollout_event io now db (successor_opened x id now)).rollouts j))
            (sym same) (turn-Closed db j id keyed present))
    supersede_all-Closed db id j (p ∷ ps) keyed present (there later) =
        let next = process_rollout_event io now db (successor_opened p id now) in
        let l = process_rollout_event-Later io now db (successor_opened p id now) keyed in
        supersede_all-Closed next id j ps (Later-IsKeyed db next keyed l)
          (Advanced-Present j (get db.rollouts j) (get next.rollouts j) (l.rollouts j) present)
          later

    pub opened_over-Closed :
        (db : Db) (ps : List RolloutId) (id j : RolloutId) (channel : ChannelId)
        (target : ChannelRef)
        → IsKeyed db
        → Present (get db.rollouts j)
        → Any (λ (p : RolloutId). p ≡ j) ps
        → Closed (get (opened_over io manifests now db ps id channel target).rollouts j)
    unfolding opened_over
    opened_over-Closed db ps id j channel target keyed present h =
        let table = Rollouts.record_rollout_opened db.rollouts id channel target now none in
        let inserted = record db { rollouts = table } in
        let e = rollout_opened id channel target now in
        let logged = append_rollout_event io now inserted id e in
        let l1 =
          with_rollouts-Later io now db table
            (inserted-Advanced db.rollouts id channel target now none) in
        let l2 = append_rollout_event-Later io now inserted id e in
        let l = Later-trans db inserted logged l1 l2 in
        supersede_all-Closed logged id j ps (Later-IsKeyed db logged keyed l)
          (Advanced-Present j (get db.rollouts j) (get logged.rollouts j) (l.rollouts j) present) h
