-- ===== src/ControlPlane/History/Terminal.antt =====
-- When a rollout becomes `Terminal` (RFC-0008 §3): `handle_host_event` of
-- crates/nixfleet-control-plane/src/runtime/reducer.rs.
use nixfleet.Prelude.{
  ◌≡◌, ◌⊎◌, inl, inr, refl, sym, subst, ◌∙◌, Bool, true, false, List, [], ◌∷◌, arith, leb,
  Option-cases, Result-cases, Bool-cases, string_eq, pair_eq, All, all, is_empty, ◌&&◌,
}
use nixfleet.Prelude.StringOrder.{true≢false}
use nixfleet.Prelude.HashMap.{get}
use nixfleet.Proto.{Time, RolloutId, rollout_id_eq, HostId}
use nixfleet.Host.State.{HostState, HostRolloutState}
use nixfleet.Host.Event.{Event, seq}
use nixfleet.Host.Effect.{Effect}
use nixfleet.Host.Transitions.{step}
use nixfleet.Rollout.Event.{host_state_changed, rollout_terminal}
use nixfleet.Planner.Types.{SignedManifestSet}
use nixfleet.ControlPlane.Io.{Io, Statement}
use nixfleet.ControlPlane.Store.{Db}
use nixfleet.ControlPlane.Store.Records.{upsert, all_for_rollout}
use nixfleet.ControlPlane.Applier.{apply_effects}
use nixfleet.ControlPlane.Applier.RolloutEvents.{process_rollout_event}
use nixfleet.ControlPlane.Runtime.FleetView.{resolve_policy}
use nixfleet.ControlPlane.Runtime.HostEvents.{
  ReducerState, row_loaded, tell_rollout, commit, handle_host_event, all_converged, is_converged,
  state_changed,
}
use nixfleet.ControlPlane.History.{IsKeyed, HasKey, Later-IsKeyed}
use nixfleet.ControlPlane.History.Elsewhere.{process-elsewhere}
use nixfleet.ControlPlane.History.Transitions.{process_rollout_event-Later}
use nixfleet.ControlPlane.History.Kept.{process_rollout_event-records}
use nixfleet.ControlPlane.History.Ended.{
  NotEnded, same-EndsNo, process-EndsNo, host_effects-rollouts,
}

-- The rollout has host records, and every one of them has converged.
abbrev pub Converged : List HostRolloutState → Type 0
Converged rows =
    (is_empty rows ≡ false) × All (λ (r : HostRolloutState). r.state ≡ HostState.converged) rows

and-right : (a b : Bool) → (a && b) ≡ true → b ≡ true
and-right a b h = ground arith

all-All :
    (rows : List HostRolloutState)
    → all (λ (r : HostRolloutState). is_converged r.state) rows ≡ true
    → All (λ (r : HostRolloutState). r.state ≡ HostState.converged) rows
unfolding all
all-All [] h = tt
all-All (r ∷ rows) h = ground (arith, all-All rows)

module _ (io : Io) (now : Time) where
  all_converged-Converged :
      (db : Db) (id : RolloutId)
      → all_converged io now db id ≡ true
      → Converged (all_for_rollout db.host_rollout_records id)
  unfolding all_converged
  all_converged-Converged db id h =
      ground (arith, all-All (all_for_rollout db.host_rollout_records id))

  -- The rollout has not become `Terminal`, or it is the event's own and all its hosts have converged.
  abbrev Ends : Db → Db → RolloutId → RolloutId → Type 0
  Ends before after id j =
      NotEnded (get before.rollouts j) (get after.rollouts j)
      ⊎ ((j ≡ id) × Converged (all_for_rollout after.host_rollout_records j))

  tell_rollout-ended :
      (db : Db) (host : HostId) (id : RolloutId) (from to : HostState) (j : RolloutId)
      → IsKeyed db
      → Ends db (tell_rollout io now db host id from to) id j
  unfolding tell_rollout
  tell_rollout-ended db host id from to j keyed =
      let e = host_state_changed id host from to now in
      let told = process_rollout_event io now db e in
      let over = process_rollout_event io now told (rollout_terminal id now) in
      let quiet = process-EndsNo io now db e refl in
      let told_keyed =
        Later-IsKeyed db told keyed (process_rollout_event-Later io now db e keyed) in
      elim (Bool-cases (state_changed from to)) [
        | inr q ↦ inl (rw (tell_rollout, q) (same-EndsNo db db refl j))
        | inl q ↦ elim (Bool-cases (is_converged to && all_converged io now told id)) [
          | inr p ↦ inl (rw (tell_rollout, q, p) (quiet j))
          | inl p ↦ elim (Bool-cases (rollout_id_eq.beq j id)) [
            | inl own ↦
                let same = (rollout_id_eq.beq_iff j id).0 own in
                let converged_rows =
                  subst (λ t. Converged (all_for_rollout t id))
                    (sym (process_rollout_event-records io now told (rollout_terminal id now)))
                    (all_converged-Converged told id (and-right _ _ p)) in
                inr (
                  rw (tell_rollout, q, p)
                    (
                      same,
                      subst
                          (λ (i : RolloutId).
                            Converged (all_for_rollout over.host_rollout_records i))
                          (sym same) converged_rows,
                    ))
            | inr foreign ↦
                let other = λ (s : j ≡ id).
                  absurd (true≢false (sym ((rollout_id_eq.beq_iff j id).1 s) ∙ foreign)) in
                inl (
                  rw (tell_rollout, q, p)
                    (subst (λ o. NotEnded (get db.rollouts j) o)
                      (sym (
                        process-elsewhere io now told (rollout_terminal id now) j told_keyed other))
                      (quiet j)))
          ]
        ]
      ]

  commit-ended :
      (manifests : SignedManifestSet) (db : Db) (host : HostId) (id : RolloutId) (from : HostState)
      (next : HostRolloutState) (fx : List Effect) (j : RolloutId)
      → IsKeyed db
      → Ends db (commit io now manifests db host id from next fx) id j
  unfolding commit
  commit-ended manifests db host id from next fx j keyed =
      let written = record db { host_rollout_records = upsert db.host_rollout_records next } in
      let done = apply_effects io manifests now written fx in
      let same = host_effects-rollouts io now manifests written fx in
      let done_keyed : IsKeyed done = λ i. subst (λ t. HasKey i (get t i)) (sym same) (keyed i) in
      elim (Bool-cases (io.succeeds (Statement.upsert_record next.rollout_id next.hostname))) [
        | inr q ↦ inl (rw (commit, q) (same-EndsNo db db refl j))
        | inl q ↦ elim (tell_rollout-ended done host id from next.state j done_keyed) [
          | inl quiet ↦ inl (
              rw (commit, q)
                (subst
                  (λ t.
                    NotEnded (get t j)
                      (get (tell_rollout io now done host id from next.state).rollouts j))
                  same quiet))
          | inr ended ↦ inr (rw (commit, q) ended)
        ]
      ]

  pub handle_host_event-ended :
      (rs : ReducerState) (db : Db) (host : HostId) (id : RolloutId) (e : Event) (j : RolloutId)
      → IsKeyed db
      → NotEnded (get db.rollouts j) (get (handle_host_event io now rs db host id e).rollouts j)
        ⊎ ((j ≡ id)
            × Converged
                (all_for_rollout (handle_host_event io now rs db host id e).host_rollout_records j))
  unfolding handle_host_event
  handle_host_event-ended rs db host id e j keyed =
      let same = same-EndsNo db db refl j in
      elim (Option-cases (row_loaded io db id host)) [
        | inl q ↦ inl (rw (handle_host_event, q) same)
        | inr (prior, q) ↦ elim (Bool-cases (leb (seq e) prior.last_event_seq)) [
          | inl s ↦ inl (rw (handle_host_event, q, s) same)
          | inr s ↦ elim (Option-cases rs.manifests) [
            | inl p ↦ inl (rw (handle_host_event, q, s, p) same)
            | inr (m, p) ↦ elim (Option-cases (resolve_policy m prior.channel)) [
              | inl o ↦ inl (rw (handle_host_event, q, s, p, o) same)
              | inr (policy, o) ↦ elim (Result-cases (step prior e now policy)) [
                | inr (_, n) ↦ inl (rw (handle_host_event, q, s, p, o, n) same)
                | inl ((next, fx), n) ↦
                    rw (handle_host_event, q, s, p, o, n)
                      (commit-ended m db host id prior.state
                        (record next { last_event_seq = seq e }) fx j keyed)
              ]
            ]
          ]
        ]
      ]
