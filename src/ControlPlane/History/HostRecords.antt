-- ===== src/ControlPlane/History/HostRecords.antt =====
-- An event of a host in the table of records: the row that it is for becomes what `step` makes of it,
-- and no other row changes.
use nixfleet.Prelude.{
  ℕ, ◌≡◌, ◌≤◌, ◌<◌, refl, sym, subst, ap, ◌∙◌, true, false, Option, none, some, List, ok, arith,
  if◌then◌else◌, leb, string_eq, pair_eq, pair_beq, le→leb,
}
use nixfleet.Prelude.HashMap.{get, get-insert}
use nixfleet.Proto.{Time, RolloutId, rollout_id_eq, HostId, RolloutPolicy}
use nixfleet.Host.State.{HostState, HostRolloutState}
use nixfleet.Host.Event.{Event, seq}
use nixfleet.Host.Effect.{Effect}
use nixfleet.Host.Steps.{step_accepted, step-seq}
use nixfleet.Host.Transitions.{step}
use nixfleet.Planner.Types.{SignedManifestSet}
use nixfleet.ControlPlane.Io.{Io, Statement}
use nixfleet.ControlPlane.Store.{Db}
use nixfleet.ControlPlane.Store.Records.{upsert, load}
use nixfleet.ControlPlane.Runtime.FleetView.{resolve_policy}
use nixfleet.ControlPlane.Runtime.HostEvents.{ReducerState, row_loaded, commit, handle_host_event}
use nixfleet.ControlPlane.History.Kept.{OpensNone, step-KeepsKey, commit-records, commit-refused}

lt→stale : (n last : ℕ) → last < n → leb n last ≡ false
lt→stale n last h = ground arith

same→le : {n k : ℕ} → k ≡ n → n ≤ k
same→le h = omega arith

-- The row under a key has that key.
abbrev pub HasRecordKey : RolloutId → HostId → Option HostRolloutState → Type 0
HasRecordKey id host none = Unit
HasRecordKey id host (some r) = (r.rollout_id ≡ id) × (r.hostname ≡ host)

module _ (io : Io) (now : Time) where
  committed :
      (manifests : SignedManifestSet) (db : Db) (host : HostId) (id : RolloutId) (from : HostState)
      (next : HostRolloutState) (fx : List Effect) (j : RolloutId) (name : HostId)
      → io.succeeds (Statement.upsert_record id host) ≡ true
      → next.rollout_id ≡ id
      → next.hostname ≡ host
      → OpensNone fx
      → get (commit io now manifests db host id from next fx).host_rollout_records (j, name) ≡ (
          if pair_beq (id, host) (j, name)
          then some next
          else get db.host_rollout_records (j, name))
  unfolding upsert
  committed manifests db host id from next fx j name written same_id same_host none_opened =
      let ok_write =
        subst (λ x. io.succeeds (Statement.upsert_record x next.hostname) ≡ true) (sym same_id)
          (subst (λ y. io.succeeds (Statement.upsert_record id y) ≡ true) (sym same_host)
            written) in
      let table = commit-records io now manifests db host id from next fx ok_write none_opened in
      ap (λ (t : _). get t (j, name)) table
      ∙ get-insert db.host_rollout_records (next.rollout_id, next.hostname) (j, name) next
      ∙ ap
          (λ (k : RolloutId × HostId).
            if pair_beq k (j, name) then some next else get db.host_rollout_records (j, name))
          (λ i. (same_id i, same_host i))

  -- An event of a host that is newer than the host's row, is legal for it, and whose row is written:
  -- the row becomes exactly what `step` makes of it, and every other row stays. The row stands under
  -- its own rollout and host, and the manifests name its policy.
  pub handle_host_event-step :
      (rs : ReducerState) (db : Db) (host : HostId) (id : RolloutId) (e : Event)
      (prior : HostRolloutState) (m : SignedManifestSet) (policy : RolloutPolicy)
      (next : HostRolloutState) (fx : List Effect) (j : RolloutId) (name : HostId)
      → row_loaded io db id host ≡ some prior
      → HasRecordKey id host (some prior)
      → rs.manifests ≡ some m
      → resolve_policy m prior.channel ≡ some policy
      → step prior e now policy ≡ ok (next, fx)
      → io.succeeds (Statement.upsert_record id host) ≡ true
      → get (handle_host_event io now rs db host id e).host_rollout_records (j, name) ≡ (
          if pair_beq (id, host) (j, name)
          then some next
          else get db.host_rollout_records (j, name))
  unfolding handle_host_event
  handle_host_event-step rs db host id e prior m policy next fx j name q (key_id, key_host) p o n
        w =
      let (same_id, same_host, none_opened) = step-KeepsKey prior e now policy n in
      let newer = (step_accepted prior e now policy n).0 in
      let numbered = record next { last_event_seq = seq e } in
      let same =
        ap (λ (k : ℕ). record next { last_event_seq = k }) (step-seq prior e now policy n) in
      rw (handle_host_event, q, lt→stale (seq e) prior.last_event_seq newer, p, o, n)
        (committed m db host id prior.state numbered fx j name w (same_id ∙ key_id)
            (same_host ∙ key_host) none_opened
          ∙ ap
              (λ (r : HostRolloutState).
                if pair_beq (id, host) (j, name)
                then some r
                else get db.host_rollout_records (j, name))
              (sym same))

  -- A row whose number has reached the event's: the event is dropped.
  pub handle_host_event-stale :
      (rs : ReducerState) (db : Db) (host : HostId) (id : RolloutId) (e : Event)
      (row : HostRolloutState)
      → row_loaded io db id host ≡ some row
      → seq e ≤ row.last_event_seq
      → handle_host_event io now rs db host id e ≡ db
  unfolding handle_host_event
  handle_host_event-stale rs db host id e row q old =
      rw (handle_host_event, q, le→leb (seq e) row.last_event_seq old) refl

  pub loaded-get :
      (db : Db) (id : RolloutId) (host : HostId) (row : HostRolloutState)
      → row_loaded io db id host ≡ some row
      → get db.host_rollout_records (id, host) ≡ some row
  unfolding row_loaded load
  loaded-get db id host row q = ground arith

  pub refused-drops :
      (rs : ReducerState) (db : Db) (host : HostId) (id : RolloutId) (e : Event)
      (prior next : HostRolloutState) (m : SignedManifestSet) (policy : RolloutPolicy)
      (fx : List Effect)
      → HasRecordKey id host (some prior)
      → row_loaded io db id host ≡ some prior
      → rs.manifests ≡ some m
      → resolve_policy m prior.channel ≡ some policy
      → step prior e now policy ≡ ok (next, fx)
      → io.succeeds (Statement.upsert_record id host) ≡ false
      → handle_host_event io now rs db host id e ≡ db
  unfolding handle_host_event
  refused-drops rs db host id e prior next m policy fx (key_id, key_host) q p o n refused =
      let (same_id, same_host, _) = step-KeepsKey prior e now policy n in
      let newer = (step_accepted prior e now policy n).0 in
      let refused_next =
        subst (λ x. io.succeeds (Statement.upsert_record x next.hostname) ≡ false)
          (sym (same_id ∙ key_id))
          (subst (λ y. io.succeeds (Statement.upsert_record id y) ≡ false)
            (sym (same_host ∙ key_host)) refused) in
      rw (handle_host_event, q, lt→stale (seq e) prior.last_event_seq newer, p, o, n)
        (commit-refused io now m db host id prior.state (record next { last_event_seq = seq e }) fx
          refused_next)
