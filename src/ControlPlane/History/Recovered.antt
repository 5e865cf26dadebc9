-- ===== src/ControlPlane/History/Recovered.antt =====
-- What a heartbeat makes of a row whose events were lost: `maybe_synthesize_recovery_completion` of
-- crates/nixfleet-control-plane/src/runtime/reducer.rs.
use nixfleet.Prelude.{
  ℕ, ◌+◌, ◌^◌, ◌<◌, ◌≡◌, inl, inr, refl, sym, subst, ap, ◌∙◌, Bool, true, false, Option, none, some,
  List, [], Result, ok, err, arith, if◌then◌else◌, leb, option_beq, string_eq, pair_eq,
  pair_beq_iff, any, Result-cases, Bool-cases, is_some,
}
use nixfleet.Prelude.HashMap.{get}
use nixfleet.Prelude.Int.{pos}
use nixfleet.Proto.{Time, RolloutId, rollout_id_eq, HostId, RolloutPolicy, ClosureHash}
use nixfleet.Host.State.{
  HostState, HostRolloutState, pending, activating, deferred, soaking, converged, failed, reverted,
}
use nixfleet.Host.Event.{Event, seq}
use nixfleet.Host.Effect.{Effect}
use nixfleet.Host.Error.{TransitionError}
use nixfleet.Host.Transitions.{step, dispatch, handle_in, verify_converged_invariants}
use nixfleet.Host.Transitions.Pending
use nixfleet.Host.Transitions.Activating
use nixfleet.Host.Transitions.Deferred
use nixfleet.Host.Transitions.Soaking
use nixfleet.Host.Transitions.Failed
use nixfleet.Host.Run.{absorb}
use nixfleet.Planner.Types.{SignedManifestSet, FleetState}
use nixfleet.Planner.Gates.{evaluate_for_dispatch}
use nixfleet.ControlPlane.Io.{Io, Statement}
use nixfleet.ControlPlane.Store.{Db}
use nixfleet.ControlPlane.Store.Records.{load}
use nixfleet.ControlPlane.Recovery.{seq_after, synth_converged_at}
use nixfleet.ControlPlane.Runtime.FleetView.{
  resolve_policy, build_fleet_state, evaluate_synth_gates,
}
use nixfleet.ControlPlane.Runtime.HostEvents.{ReducerState, row_loaded, handle_host_event}
use nixfleet.ControlPlane.Runtime.Heartbeats.{synthesize_in, synthesize_chain, missed, gate_of}
use nixfleet.ControlPlane.History.HostRecords.{HasRecordKey, handle_host_event-step}

-- The state that a heartbeat has to leave a row in, from the row's state, whether a gate holds its
-- dispatch, whether the host reports the row's target, and whether it reports the closure that it ran
-- at dispatch.
abbrev pub recovered_state : HostState → Bool → Bool → Bool → HostState
recovered_state activating held on_target on_prior = if on_target then soaking else activating
recovered_state deferred held on_target on_prior = if on_target then soaking else deferred
recovered_state pending held on_target on_prior =
    if on_target then (if held then pending else converged) else pending
recovered_state failed held on_target on_prior = if on_prior then reverted else failed
recovered_state soaking held on_target on_prior = soaking
recovered_state converged held on_target on_prior = converged
recovered_state reverted held on_target on_prior = reverted

-- The row under a key is in a state.
abbrev pub IsIn : HostState → Option HostRolloutState → Type 0
IsIn h none = ⊥
IsIn h (some r) = r.state ≡ h

-- A row of an activating host, and of a soaking one, as the chain leaves them.
acked : HostRolloutState → ℕ → Time → HostRolloutState
acked s n at = record s {
  state = HostState.activating;
  current_closure_at_dispatch = some "";
  dispatch_acked_at = some at;
  last_event_seq = n;
}

switched : HostRolloutState → ClosureHash → ℕ → Time → HostRolloutState
switched s closure n at = record s {
  state = HostState.soaking;
  activation_completed_at = some at;
  current_closure = some closure;
  probes = [];
  last_event_seq = n;
}

module _ (policy : RolloutPolicy) (s : HostRolloutState) (n : ℕ) (at now : Time) where
  absorb-acked :
      s.state ≡ pending
      → s.last_event_seq < n
      → (absorb policy s (Event.remote_dispatch_ack "" at n) now).0 ≡ acked s n at
  unfolding absorb step dispatch handle_in Pending.handle seq acked
  absorb-acked q newer = ground arith

  absorb-switched :
      (closure : ClosureHash)
      → s.state ≡ activating
      → s.last_event_seq < n
      → (absorb policy s (Event.remote_activation_completed closure (pos 0) at n) now).0
        ≡ switched s closure n at
  unfolding absorb step dispatch handle_in Activating.handle seq switched
  absorb-switched closure q newer = ground arith

  absorb-converged :
      (closure : ClosureHash)
      → s.state ≡ soaking
      → s.target_closure ≡ closure
      → s.probes ≡ []
      → s.last_event_seq < n
      → (absorb policy s
          (Event.remote_converged (synth_converged_at s.soak_due_at at) closure n)
          now).0.state
        ≡ converged
  unfolding absorb step dispatch handle_in Soaking.handle seq verify_converged_invariants any
  absorb-converged closure q target none_left newer =
      ground (arith, string_eq.beq_iff closure s.target_closure)

  absorb-completed :
      (closure : ClosureHash)
      → s.state ≡ deferred
      → s.last_event_seq < n
      → (absorb policy s (Event.remote_activation_completed closure (pos 0) at n) now).0.state
        ≡ soaking
  unfolding absorb step dispatch handle_in Deferred.handle seq
  absorb-completed closure q newer = ground arith

  absorb-rolled_back :
      (closure : ClosureHash)
      → s.state ≡ failed
      → s.last_event_seq < n
      → (absorb policy s (Event.remote_rollback_complete closure (pos 0) at n) now).0.state
        ≡ reverted
  unfolding absorb step dispatch handle_in Failed.handle seq
  absorb-rolled_back closure q newer = ground arith

absorb-refused :
    (policy : RolloutPolicy) (s : HostRolloutState) (e : Event) (now : Time) (x : TransitionError)
    → step s e now policy ≡ err x
    → (absorb policy s e now).0 ≡ s
unfolding absorb
absorb-refused policy s e now x n =
    ap
      (λ (r : Result (HostRolloutState × List Effect) TransitionError).
        (elim r as (λ x. HostRolloutState × List Effect) [
          | ok (t, gx) ↦ (t, gx)
          | err _ ↦ (s, [])
        ]).0)
      n

absorb-accepted :
    (policy : RolloutPolicy) (s : HostRolloutState) (e : Event) (now : Time)
    (next : HostRolloutState) (fx : List Effect)
    → step s e now policy ≡ ok (next, fx)
    → (absorb policy s e now).0 ≡ next
unfolding absorb
absorb-accepted policy s e now next fx n =
    ap
      (λ (r : Result (HostRolloutState × List Effect) TransitionError).
        (elim r as (λ x. HostRolloutState × List Effect) [
          | ok (t, gx) ↦ (t, gx)
          | err _ ↦ (s, [])
        ]).0)
      n

stale_not : (n last : ℕ) → last < n → leb n last ≡ false
stale_not n last h = ground arith

module _ (io : Io) (now : Time) (rs : ReducerState) (m : SignedManifestSet) (policy : RolloutPolicy)
    (sound : (st : Statement) → io.succeeds st ≡ true) (known : rs.manifests ≡ some m) where
  -- A row that the task finds under its own key, of a channel whose policy is the one at hand.
  record Found (db : Db) (id : RolloutId) (host : HostId) (s : HostRolloutState) : Type 0 where
    row : get db.host_rollout_records (id, host) ≡ some s
    key : HasRecordKey id host (some s)
    named : resolve_policy m s.channel ≡ some policy

  Found-loaded :
      (db : Db) (id : RolloutId) (host : HostId) (s : HostRolloutState)
      → Found db id host s
      → row_loaded io db id host ≡ some s
  unfolding row_loaded load
  Found-loaded db id host s f = rw (sound (Statement.load_record id host)) f.row

  -- A host's event on a row that is found: the row is then what `absorb` makes of it.
  handled-absorb :
      (db : Db) (id : RolloutId) (host : HostId) (s : HostRolloutState) (e : Event)
      → Found db id host s
      → s.last_event_seq < seq e
      → get (handle_host_event io now rs db host id e).host_rollout_records (id, host)
        ≡ some (absorb policy s e now).0
  unfolding handle_host_event
  handled-absorb db id host s e f newer =
      let loaded = Found-loaded db id host s f in
      let fresh = stale_not (seq e) s.last_event_seq newer in
      elim (Result-cases (step s e now policy)) [
        | inr (x, n) ↦
            let same : handle_host_event io now rs db host id e ≡ db =
              rw (handle_host_event, loaded, fresh, known, f.named, n) refl in
            ap (λ (d : Db). get d.host_rollout_records (id, host)) same
            ∙ f.row
            ∙ ap some (sym (absorb-refused policy s e now x n))
        | inl ((next, fx), n) ↦
            handle_host_event-step io now rs db host id e s m policy next fx id host loaded f.key
              known f.named n (sound (Statement.upsert_record id host))
            ∙ ap (λ b. if b then some next else get db.host_rollout_records (id, host))
                ((pair_beq_iff (id, host) (id, host)).1 refl)
            ∙ ap some (sym (absorb-accepted policy s e now next fx n))
      ]

  -- An event after which the row is in a state.
  handled-IsIn :
      (db : Db) (id : RolloutId) (host : HostId) (s : HostRolloutState) (e : Event) (h : HostState)
      → Found db id host s
      → s.last_event_seq < seq e
      → (absorb policy s e now).0.state ≡ h
      → IsIn h (get (handle_host_event io now rs db host id e).host_rollout_records (id, host))
  handled-IsIn db id host s e h f newer q =
      subst (λ r. IsIn h r) (sym (handled-absorb db id host s e f newer)) q

  synthesize_chain-IsIn :
      (db : Db) (s : HostRolloutState) (closure : ClosureHash) (at : Time)
      → Found db s.rollout_id s.hostname s
      → s.state ≡ pending
      → s.target_closure ≡ closure
      → s.last_event_seq + 3 < 2 ^ 64
      → IsIn converged (
          get
            (synthesize_chain io now rs db s closure at).host_rollout_records
            (s.rollout_id, s.hostname))
  unfolding synthesize_chain acked switched
  synthesize_chain-IsIn db s closure at f q target room =
      let id = s.rollout_id in
      let host = s.hostname in
      let e1 = Event.remote_dispatch_ack "" at (seq_after s 1) in
      let e2 = Event.remote_activation_completed closure (pos 0) at (seq_after s 2) in
      let d1 = handle_host_event io now rs db host id e1 in
      let d2 = handle_host_event io now rs d1 host id e2 in
      let t1 = acked s (seq_after s 1) at in
      let t2 = switched t1 closure (seq_after s 2) at in
      let f1 : Found d1 id host t1 = record {
        row =
            handled-absorb db id host s e1 f (omega arith)
            ∙ ap some (absorb-acked policy s (seq_after s 1) at now q (omega arith));
        key = f.key;
        named = f.named;
      } in
      let f2 : Found d2 id host t2 = record {
        row =
            handled-absorb d1 id host t1 e2 f1 (omega arith)
            ∙ ap some (absorb-switched policy t1 (seq_after s 2) at now closure refl (omega arith));
        key = f.key;
        named = f.named;
      } in
      rw (synthesize_chain, Found-loaded d2 id host t2 f2)
        (handled-IsIn d2 id host t2
          (Event.remote_converged (synth_converged_at t2.soak_due_at at) closure (seq_after s 3))
          converged f2 (omega arith)
          (absorb-converged policy t2 (seq_after s 3) at now closure refl target refl
            (omega arith)))

  kept-IsIn :
      (db : Db) (s : HostRolloutState) (h : HostState)
      → Found db s.rollout_id s.hostname s
      → s.state ≡ h
      → IsIn h (get db.host_rollout_records (s.rollout_id, s.hostname))
  kept-IsIn db s h f q = subst (λ r. IsIn h r) (sym f.row) q

  switched-IsIn :
      (db : Db) (s : HostRolloutState) (closure : ClosureHash) (at : Time)
      → Found db s.rollout_id s.hostname s
      → s.state ≡ activating
      → s.last_event_seq + 3 < 2 ^ 64
      → IsIn soaking (
          get
            (handle_host_event io now rs db s.hostname s.rollout_id (
              Event.remote_activation_completed closure
                (pos 0)
                at
                (seq_after s 1))).host_rollout_records
            (s.rollout_id, s.hostname))
  unfolding switched seq
  switched-IsIn db s closure at f q room =
      handled-IsIn db s.rollout_id s.hostname s
        (Event.remote_activation_completed closure (pos 0) at (seq_after s 1)) soaking f
        (omega arith)
        (ap (λ (r : HostRolloutState). r.state)
          (absorb-switched policy s (seq_after s 1) at now closure q (omega arith)))

  recovered :
      (h : HostState) (db : Db) (s : HostRolloutState) (closure : ClosureHash) (at : Time)
      → Found db s.rollout_id s.hostname s
      → s.state ≡ h
      → s.last_event_seq + 3 < 2 ^ 64
      → IsIn
          (recovered_state h
            (gate_of io now rs db s)
            (string_eq.beq s.target_closure closure)
            (option_beq s.current_closure_at_dispatch (some closure)))
          (get
            (synthesize_in io now rs h db s.hostname s closure at).host_rollout_records
            (s.rollout_id, s.hostname))
  unfolding synthesize_in missed
  recovered activating db s closure at f q room =
      elim (Bool-cases (string_eq.beq s.target_closure closure)) [
        | inl p ↦ rw (synthesize_in, p) (switched-IsIn db s closure at f q room)
        | inr p ↦ rw (synthesize_in, p) (kept-IsIn db s activating f q)
      ]
  recovered deferred db s closure at f q room =
      elim (Bool-cases (string_eq.beq s.target_closure closure)) [
        | inl p ↦
            rw (synthesize_in, p)
              (handled-IsIn db s.rollout_id s.hostname s
                (Event.remote_activation_completed closure (pos 0) at (seq_after s 1)) soaking f
                (omega arith)
                (absorb-completed policy s (seq_after s 1) at now closure q (omega arith)))
        | inr p ↦ rw (synthesize_in, p) (kept-IsIn db s deferred f q)
      ]
  recovered pending db s closure at f q room =
      elim (Bool-cases (string_eq.beq s.target_closure closure)) [
        | inr p ↦ rw (synthesize_in, p) (kept-IsIn db s pending f q)
        | inl p ↦ elim (Bool-cases (gate_of io now rs db s)) [
          | inl g ↦ rw (synthesize_in, p, g) (kept-IsIn db s pending f q)
          | inr g ↦
              rw (synthesize_in, p, g)
                (synthesize_chain-IsIn db s closure at f q
                  ((string_eq.beq_iff s.target_closure closure).0 p) room)
        ]
      ]
  recovered failed db s closure at f q room =
      elim (Bool-cases (option_beq s.current_closure_at_dispatch (some closure))) [
        | inr p ↦ rw (synthesize_in, p) (kept-IsIn db s failed f q)
        | inl p ↦
            rw (synthesize_in, p)
              (handled-IsIn db s.rollout_id s.hostname s
                (Event.remote_rollback_complete closure (pos 0) at (seq_after s 1)) reverted f
                (omega arith)
                (absorb-rolled_back policy s (seq_after s 1) at now closure q (omega arith)))
      ]
  recovered soaking db s closure at f q room = kept-IsIn db s soaking f q
  recovered converged db s closure at f q room = kept-IsIn db s converged f q
  recovered reverted db s closure at f q room = kept-IsIn db s reverted f q

gate_of-evaluate_for_dispatch :
    (io : Io) (now : Time) (rs : ReducerState) (m : SignedManifestSet) (view : FleetState) (db : Db)
    (s : HostRolloutState)
    → rs.manifests ≡ some m
    → build_fleet_state io db m ≡ some view
    → gate_of io now rs db s
      ≡ is_some (
          evaluate_for_dispatch view m rs.quarantines s.rollout_id s.hostname s.target_closure
            s.channel [])
unfolding gate_of evaluate_synth_gates
gate_of-evaluate_for_dispatch io now rs m view db s known built =
    rw (gate_of, known, evaluate_synth_gates, built) refl

-- What the recovery of a heartbeat that reports a closure does with one row of the host, when the row
-- stands under its own rollout and host, the manifests name its policy, every statement succeeds, and
-- three more numbers of u64 are left. Then the table holds the row in this state: from `Activating` or
-- `Deferred`, `Soaking` if the closure is the row's target; from `Pending`, `Converged` if it is and
-- `evaluate_for_dispatch` holds no dispatch of it in the fleet that the tables and the manifests
-- give, with empty counts of the tick; from `Failed`, `Reverted` if it is the closure that the host
-- ran at dispatch; and else the state that it was in.
pub synthesize_in-recovers :
    (io : Io) (now : Time) (rs : ReducerState) (m : SignedManifestSet) (policy : RolloutPolicy)
    (view : FleetState) (db : Db) (s : HostRolloutState) (closure : ClosureHash) (at : Time)
    → ((st : Statement) → io.succeeds st ≡ true)
    → rs.manifests ≡ some m
    → build_fleet_state io db m ≡ some view
    → get db.host_rollout_records (s.rollout_id, s.hostname) ≡ some s
    → resolve_policy m s.channel ≡ some policy
    → s.last_event_seq + 3 < 2 ^ 64
    → IsIn
        (recovered_state s.state
          (is_some (
            evaluate_for_dispatch view m rs.quarantines s.rollout_id s.hostname s.target_closure
              s.channel []))
          (string_eq.beq s.target_closure closure)
          (option_beq s.current_closure_at_dispatch (some closure)))
        (get
          (synthesize_in io now rs s.state db s.hostname s closure at).host_rollout_records
          (s.rollout_id, s.hostname))
synthesize_in-recovers io now rs m policy view db s closure at sound known built row named room =
    rw (sym (gate_of-evaluate_for_dispatch io now rs m view db s known built)) (
      recovered io now rs m policy sound known s.state db s closure at
        (record { row = row; key = (refl, refl); named = named }) refl room)
