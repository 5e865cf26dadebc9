-- ===== src/ControlPlane/History/Redelivery.antt =====
-- What a later delivery of an event finds: `handle_host_event` of
-- crates/nixfleet-control-plane/src/runtime/reducer.rs.
use nixfleet.Prelude.{
  ℕ, ◌≡◌, ◌≤◌, ◌<◌, ◌⊎◌, inl, inr, refl, sym, subst, ap, ◌∙◌, true, Option, none, some, List, [],
  ◌∷◌, ok, arith, leb, if◌then◌else◌, Option-cases, Result-cases, Bool-cases, string_eq, pair_eq,
  pair_beq, pair_beq_iff,
}
use nixfleet.Prelude.HashMap.{get}
use nixfleet.Proto.{Time, RolloutId, rollout_id_eq, HostId, RolloutPolicy}
use nixfleet.Host.State.{HostRolloutState}
use nixfleet.Host.Event.{Event, seq}
use nixfleet.Host.Effect.{Effect}
use nixfleet.Host.Steps.{step_accepted, step-seq}
use nixfleet.Host.Transitions.{step}
use nixfleet.Planner.Types.{SignedManifestSet}
use nixfleet.ControlPlane.Io.{Io, Statement}
use nixfleet.ControlPlane.Store.{Db}
use nixfleet.ControlPlane.Runtime.FleetView.{resolve_policy}
use nixfleet.ControlPlane.Runtime.HostEvents.{ReducerState, row_loaded, handle_host_event}
use nixfleet.ControlPlane.History.Kept.{step-KeepsKey}
use nixfleet.ControlPlane.History.HostRecords.{
  HasRecordKey, handle_host_event-step, handle_host_event-stale, loaded-get, refused-drops,
}

-- Every record stands under its own rollout and host.
abbrev pub RecordsKeyed : Db → Type 0
RecordsKeyed db =
    (id : RolloutId) (host : HostId) → HasRecordKey id host (get db.host_rollout_records (id, host))

-- The row is there, and its number has reached the event's.
abbrev pub Reached : ℕ → Option HostRolloutState → Type 0
Reached n none = ⊥
Reached n (some row) = n ≤ row.last_event_seq

-- An event of a host, with the clock, the statements and the manifests that it meets.
pub record Delivery : Type 0 where
  pub io : Io
  pub now : Time
  pub rs : ReducerState
  pub host : HostId
  pub rollout_id : RolloutId
  pub event : Event

-- Events of hosts, one after the other.
unfoldable pub delivered : Db → List Delivery → Db
delivered db [] = db
delivered db (d ∷ ds) =
    delivered (handle_host_event d.io d.now d.rs db d.host d.rollout_id d.event) ds

-- The event was taken: its row got its number, and no other row changed.
pub record Taken (before after : Db) (host : HostId) (id : RolloutId) (e : Event) : Type 0 where
  pub prior : HostRolloutState
  pub next : HostRolloutState
  pub was : get before.host_rollout_records (id, host) ≡ some prior
  pub newer : prior.last_event_seq < next.last_event_seq
  pub numbered : next.last_event_seq ≡ seq e
  pub keyed : HasRecordKey id host (some next)
  pub rows :
      (j : RolloutId) (name : HostId)
      → get after.host_rollout_records (j, name) ≡ (
          if pair_beq (id, host) (j, name)
          then some next
          else get before.host_rollout_records (j, name))

module _ (io : Io) (now : Time) (rs : ReducerState) where
  pub accepted-Taken :
      (db : Db) (host : HostId) (id : RolloutId) (e : Event) (prior next : HostRolloutState)
      (m : SignedManifestSet) (policy : RolloutPolicy) (fx : List Effect)
      → row_loaded io db id host ≡ some prior
      → HasRecordKey id host (some prior)
      → rs.manifests ≡ some m
      → resolve_policy m prior.channel ≡ some policy
      → step prior e now policy ≡ ok (next, fx)
      → io.succeeds (Statement.upsert_record id host) ≡ true
      → Taken db (handle_host_event io now rs db host id e) host id e
  accepted-Taken db host id e prior next m policy fx q (key_id, key_host) p o n w =
      let (same_id, same_host, _) = step-KeepsKey prior e now policy n in
      let numbered = step-seq prior e now policy n in
      record {
        prior = prior;
        next = next;
        was = loaded-get io now db id host prior q;
        newer =
            subst (λ k. prior.last_event_seq < k) (sym numbered)
              (step_accepted prior e now policy n).0;
        numbered = numbered;
        keyed = (same_id ∙ key_id, same_host ∙ key_host);
        rows = λ j name.
            handle_host_event-step io now rs db host id e prior m policy next fx j name q
              (key_id, key_host) p o n w;
      }

  -- An event of a host is taken, or the whole database stays.
  row-Taken :
      (db : Db) (host : HostId) (id : RolloutId) (e : Event)
      → RecordsKeyed db
      → (handle_host_event io now rs db host id e ≡ db)
        ⊎ Taken db (handle_host_event io now rs db host id e) host id e
  unfolding handle_host_event
  row-Taken db host id e keyed = elim (Option-cases (row_loaded io db id host)) [
    | inl q ↦ inl (rw (handle_host_event, q) refl)
    | inr (prior, q) ↦ elim (Bool-cases (leb (seq e) prior.last_event_seq)) [
      | inl s ↦ inl (rw (handle_host_event, q, s) refl)
      | inr s ↦ elim (Option-cases rs.manifests) [
        | inl p ↦ inl (rw (handle_host_event, q, s, p) refl)
        | inr (m, p) ↦ elim (Option-cases (resolve_policy m prior.channel)) [
          | inl o ↦ inl (rw (handle_host_event, q, s, p, o) refl)
          | inr (policy, o) ↦ elim (Result-cases (step prior e now policy)) [
            | inr (_, n) ↦ inl (rw (handle_host_event, q, s, p, o, n) refl)
            | inl ((next, fx), n) ↦
                let key =
                  subst (λ r. HasRecordKey id host r) (loaded-get io now db id host prior q)
                    (keyed id host) in
                elim (Bool-cases (io.succeeds (Statement.upsert_record id host))) [
                  | inl w ↦ inr (accepted-Taken db host id e prior next m policy fx q key p o n w)
                  | inr w ↦
                      inl
                        (refused-drops io now rs db host id e prior next m policy fx key q p o n w)
                ]
          ]
        ]
      ]
    ]
  ]

Taken-RecordsKeyed :
    (before after : Db) (host : HostId) (id : RolloutId) (e : Event)
    → RecordsKeyed before
    → Taken before after host id e
    → RecordsKeyed after
Taken-RecordsKeyed before after host id e keyed t j name =
    subst (λ r. HasRecordKey j name r) (sym (t.rows j name))
      (elim (Bool-cases (pair_beq (id, host) (j, name))) [
        | inr other ↦ rw other (keyed j name)
        | inl same ↦
            let pair = (pair_beq_iff (id, host) (j, name)).0 same in
            rw same
              (subst (λ (k : RolloutId × HostId). HasRecordKey k.0 k.1 (some t.next)) pair t.keyed)
      ])

Taken-Reached :
    (before after : Db) (host name : HostId) (id j : RolloutId) (e : Event) (n : ℕ)
    → Taken before after host id e
    → Reached n (get before.host_rollout_records (j, name))
    → Reached n (get after.host_rollout_records (j, name))
Taken-Reached before after host name id j e n t reached =
    subst (λ r. Reached n r) (sym (t.rows j name))
      (elim (Bool-cases (pair_beq (id, host) (j, name))) [
        | inr other ↦ rw other reached
        | inl same ↦
            let pair = (pair_beq_iff (id, host) (j, name)).0 same in
            let had =
              subst (λ r. Reached n r) t.was
                (subst (λ (k : RolloutId × HostId). Reached n (get before.host_rollout_records k))
                  (sym pair) reached) in
            rw same (omega (arith, had, t.newer))
      ])

delivered-Reached :
    (db : Db) (later : List Delivery) (id : RolloutId) (host : HostId) (n : ℕ)
    → RecordsKeyed db
    → Reached n (get db.host_rollout_records (id, host))
    → Reached n (get (delivered db later).host_rollout_records (id, host))
unfolding delivered
delivered-Reached db [] id host n keyed reached = reached
delivered-Reached db (d ∷ ds) id host n keyed reached =
    let next = handle_host_event d.io d.now d.rs db d.host d.rollout_id d.event in
    elim (row-Taken d.io d.now d.rs db d.host d.rollout_id d.event keyed) [
      | inl same ↦
          delivered-Reached next ds id host n (subst RecordsKeyed (sym same) keyed) (
            subst (λ (b : Db). Reached n (get b.host_rollout_records (id, host))) (sym same)
              reached)
      | inr t ↦
          delivered-Reached next ds id host n
            (Taken-RecordsKeyed db next d.host d.rollout_id d.event keyed t)
            (Taken-Reached db next d.host host d.rollout_id id d.event n t reached)
    ]

reached-dropped :
    (io : Io) (now : Time) (rs : ReducerState) (db : Db) (host : HostId) (id : RolloutId)
    (e : Event)
    → Reached (seq e) (get db.host_rollout_records (id, host))
    → handle_host_event io now rs db host id e ≡ db
unfolding handle_host_event
reached-dropped io now rs db host id e reached = elim (Option-cases (row_loaded io db id host)) [
  | inl q ↦ rw (handle_host_event, q) refl
  | inr (row, q) ↦
      handle_host_event-stale io now rs db host id e row q
        (subst (λ r. Reached (seq e) r) (loaded-get io now db id host row q) reached)
]

pub handle_host_event-redelivered :
    (first again : Io) (now later_now : Time) (rs later_rs : ReducerState) (db : Db) (host : HostId)
    (id : RolloutId) (e : Event) (between : List Delivery) (prior next : HostRolloutState)
    (m : SignedManifestSet) (policy : RolloutPolicy) (fx : List Effect)
    → RecordsKeyed db
    → row_loaded first db id host ≡ some prior
    → rs.manifests ≡ some m
    → resolve_policy m prior.channel ≡ some policy
    → step prior e now policy ≡ ok (next, fx)
    → first.succeeds (Statement.upsert_record id host) ≡ true
    → handle_host_event again later_now later_rs
        (delivered (handle_host_event first now rs db host id e) between)
        host
        id
        e
      ≡ delivered (handle_host_event first now rs db host id e) between
handle_host_event-redelivered first again now later_now rs later_rs db host id e between prior next
      m policy fx keyed q p o n w =
    let once = handle_host_event first now rs db host id e in
    let key =
      subst (λ r. HasRecordKey id host r) (loaded-get first now db id host prior q)
        (keyed id host) in
    let t = accepted-Taken first now rs db host id e prior next m policy fx q key p o n w in
    let row : get once.host_rollout_records (id, host) ≡ some t.next =
      t.rows id host
      ∙ ap (λ b. if b then some t.next else get db.host_rollout_records (id, host))
          ((pair_beq_iff (id, host) (id, host)).1 refl) in
    let reached : Reached (seq e) (get once.host_rollout_records (id, host)) =
      subst (λ r. Reached (seq e) r) (sym row) (omega (arith, t.numbered)) in
    reached-dropped again later_now later_rs (delivered once between) host id e (
      delivered-Reached once between id host (seq e) (Taken-RecordsKeyed db once host id e keyed t)
        reached)
