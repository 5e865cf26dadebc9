-- ===== src/ControlPlane/History/Supersession.antt =====
-- `open_rollout` of crates/nixfleet-control-plane/src/runtime/applier.rs: what becomes of the channel's
-- other rollouts.
use nixfleet.Prelude.{
  Option, none, ◌⊎◌, ◌≡◌, ◌≢◌, inl, inr, sym, subst, ◌∙◌, true, false, not, some, List, [], ◌∷◌,
  arith, map, Any, here, there, Bool-cases, string_eq, sort_by, ◌&&◌,
}
use nixfleet.Prelude.HashMap.{get}
use nixfleet.Proto.{Time, RolloutId, rollout_id_eq, ChannelId, ChannelRef}
use nixfleet.Rollout.State.{RolloutRecord, RolloutState, superseded, pruned}
use nixfleet.Planner.Types.{SignedManifestSet}
use nixfleet.ControlPlane.Io.{Io, Statement}
use nixfleet.ControlPlane.Store.{Db}
use nixfleet.ControlPlane.Store.Rollouts as Rollouts
use nixfleet.ControlPlane.Applier.{
  predecessors_in, in_flight_predecessors, opened_over, open_rollout,
}
use nixfleet.ControlPlane.History.{IsKeyed, HasKey, Later-IsKeyed}
use nixfleet.ControlPlane.History.Applied.{fill_rollout-Later, opened_over-Later}
use nixfleet.ControlPlane.History.Closing.{
  is_open, Advanced-Closed, Closed, Present, opened_over-Closed,
}
use nixfleet.ControlPlane.History.Listed.{sort_by-Any, listed-Any}

is_other : (i id : RolloutId) → i ≢ id → not (rollout_id_eq.beq i id) ≡ true
is_other i id d = ground (arith, rollout_id_eq.beq_iff i id)

-- The row of a rollout of the channel.
abbrev IsOf : RolloutId → ChannelId → RolloutRecord → Type 0
IsOf j channel r = (r.rollout_id ≡ j) × (r.channel ≡ channel)

-- The row is there, as `Superseded` or `Pruned`.
abbrev pub Replaced : Option RolloutRecord → Type 0
Replaced none = ⊥
Replaced (some r) = (r.state ≡ superseded) ⊎ (r.state ≡ pruned)

listed : (h : RolloutState) → h ≢ superseded → h ≢ pruned → is_open h ≡ true
listed h a b = ground arith

unlisted : (h : RolloutState) → is_open h ≡ false → (h ≡ superseded) ⊎ (h ≡ pruned)
unlisted h c = ground arith

Closed-Replaced : (o : Option RolloutRecord) → Closed o → Replaced o
Closed-Replaced none c = c
Closed-Replaced (some r) c = unlisted r.state c

module _ (io : Io) (now : Time) (manifests : SignedManifestSet) where
  predecessors-Any :
      (rows : List RolloutRecord) (channel : ChannelId) (id j : RolloutId)
      → j ≢ id
      → Any (IsOf j channel) rows
      → Any
          (λ (p : RolloutId). p ≡ j)
          (predecessors_in io manifests now (map Rollouts.active_rollout rows) channel id)
  unfolding predecessors_in
  predecessors-Any [] channel id j other h = elim h [ ]
  predecessors-Any (r ∷ rows) channel id j other (here (same_id, same_channel)) =
      rw
        (
          (string_eq.beq_iff r.channel channel).1 same_channel,
          is_other r.rollout_id id (λ q. other (sym same_id ∙ q)),
        )
        (here same_id)
  predecessors-Any (r ∷ rows) channel id j other (there h) =
      elim (Bool-cases
        (string_eq.beq r.channel channel && not (rollout_id_eq.beq r.rollout_id id))) [
          | inl q ↦ rw q (there (predecessors-Any rows channel id j other h))
          | inr q ↦ rw q (predecessors-Any rows channel id j other h)
        ]

  in_flight-Any :
      (db : Db) (id j : RolloutId) (channel : ChannelId) (r : RolloutRecord)
      → ((st : Statement) → io.succeeds st ≡ true)
      → j ≢ id
      → get db.rollouts j ≡ some r
      → r.rollout_id ≡ j
      → r.channel ≡ channel
      → is_open r.state ≡ true
      → Any (λ (p : RolloutId). p ≡ j) (in_flight_predecessors io manifests now db channel id)
  unfolding in_flight_predecessors Rollouts.list_active Rollouts.list_filtered
  in_flight-Any db id j channel r sound other found key same o =
      let rows = Rollouts.listed false db.rollouts in
      rw (sound Statement.list_active) (
        predecessors-Any (sort_by Rollouts.is_newer rows) channel id j other (
          sort_by-Any Rollouts.is_newer rows
            (listed-Any (IsOf j channel) db.rollouts j r found o (key, same))))

  -- When a rollout opens on a channel and every statement succeeds, each other rollout of the channel
  -- whose row was neither `Superseded` nor `Pruned`, in whatever state it was, is one of the two
  -- afterwards. Every row of the rollouts stands under its own id.
  pub open_rollout-Closed :
      (db : Db) (id j : RolloutId) (channel : ChannelId) (target : ChannelRef) (r : RolloutRecord)
      → ((st : Statement) → io.succeeds st ≡ true)
      → IsKeyed db
      → j ≢ id
      → get db.rollouts j ≡ some r
      → r.channel ≡ channel
      → r.state ≢ superseded
      → r.state ≢ pruned
      → Replaced (get (open_rollout io manifests now db id channel target).rollouts j)
  unfolding open_rollout
  open_rollout-Closed db id j channel target r sound keyed other found same live kept =
      let ps = in_flight_predecessors io manifests now db channel id in
      let opened = opened_over io manifests now db ps id channel target in
      let l = opened_over-Later io manifests now db ps id channel target keyed in
      let closed =
        opened_over-Closed io now sound manifests db ps id j channel target keyed
          (subst Present (sym found) tt)
          (in_flight-Any db id j channel r sound other found
            (subst (λ x. HasKey j x) found (keyed j)) same (listed r.state live kept)) in
      Closed-Replaced _ (
        rw (sound (Statement.record_rollout_opened id)) (
          Advanced-Closed j (get opened.rollouts j) _
            ((fill_rollout-Later io manifests now opened id channel target
                (Later-IsKeyed db opened keyed l)).rollouts
              j)
            closed))
