-- ===== src/Planner/Coverage.antt =====
-- Which hosts and which rollouts a plan acts on (planner.rs).
use nixfleet.Prelude.{
  ℕ, ◌≡◌, refl, ap, ◌∙◌, inl, inr, Bool, true, false, ◌&&◌, none, some, List, [], ◌∷◌, ◌++◌, arith,
  string_eq, is_some, Option-cases, Bool-cases, if◌then◌else◌,
}
use nixfleet.Prelude.HashMap.{HashMap, contains_key}
use nixfleet.Proto.{
  Time, HostId, RolloutId, ChannelId, Selector, RolloutManifest, rollout_id_eq, new,
}
use nixfleet.Host.State.{
  HostRolloutState, pending, activating, deferred, soaking, failed, converged, reverted,
}
use nixfleet.Planner.Types.{
  FleetState, SignedManifestSet, QuarantineSet, RolloutSummary, PlanAction, Verified, open_rollout,
  queue_dispatch, defer_dispatch,
}
use nixfleet.Planner.Gates.{evaluate_for_dispatch}
use nixfleet.Planner.Plan.{
  open_rollouts, is_candidate, plan_host, plan_hosts, plan_rollouts, plan_next,
}

-- The hosts that a plan dispatches or defers, in order.
unfoldable pub subjects : List PlanAction → List (RolloutId × HostId)
subjects [] = []
subjects (queue_dispatch host rollout _ _ ∷ actions) = (rollout, host) ∷ subjects actions
subjects (defer_dispatch host rollout _ _ ∷ actions) = (rollout, host) ∷ subjects actions
subjects (_ ∷ actions) = subjects actions

-- The rollouts that a plan opens, in order.
unfoldable pub opened : List PlanAction → List RolloutId
opened [] = []
opened (open_rollout id _ _ ∷ actions) = id ∷ opened actions
opened (_ ∷ actions) = opened actions

-- The record waits for its first dispatch in the rollout: it is the rollout's, `Pending`, and has no
-- acknowledgement.
abbrev pub waits : RolloutId → RolloutId → HostRolloutState → Bool
waits id rid s = rollout_id_eq.beq rid id && (elim s.state [
  | pending ↦ elim s.dispatch_acked_at [ none ↦ true | some _ ↦ false ]
  | activating ↦ false
  | deferred ↦ false
  | soaking ↦ false
  | failed ↦ false
  | converged ↦ false
  | reverted ↦ false
])

is_candidate-waits :
    (id rid : RolloutId) (s : HostRolloutState) → is_candidate id rid s ≡ waits id rid s
unfolding is_candidate
is_candidate-waits id rid s = ground arith

-- The waiting hosts of one rollout.
unfoldable pub waiting_in :
    RolloutId → HashMap (RolloutId × HostId) HostRolloutState → List (RolloutId × HostId)
waiting_in id [] = []
waiting_in id (((rid, host), s) ∷ states) =
    if waits id rid s then (id, host) ∷ waiting_in id states else waiting_in id states

-- The waiting hosts of the rollouts that are not over.
unfoldable pub waiting :
    HashMap (RolloutId × HostId) HostRolloutState
    → HashMap RolloutId RolloutSummary
    → List (RolloutId × HostId)
unfolding waiting_in
waiting states [] = []
waiting states ((id, r) ∷ rollouts) =
    if is_some r.terminal_at
    then waiting states rollouts
    else waiting_in id states ++ waiting states rollouts

-- The rollouts that the manifests name and that have no row.
unfoldable pub missing :
    HashMap RolloutId RolloutSummary → HashMap ChannelId (Verified RolloutManifest) → List RolloutId
missing rows [] = []
missing rows ((c, rm) ∷ manifests) =
    if contains_key rows (new c rm.inner.channel_ref)
    then missing rows manifests
    else new c rm.inner.channel_ref ∷ missing rows manifests

subjects-append :
    (xs ys : List PlanAction) {us vs : List (RolloutId × HostId)}
    → subjects xs ≡ us
    → subjects ys ≡ vs
    → subjects (xs ++ ys) ≡ us ++ vs
unfolding subjects
subjects-append [] ys h k = rw⁻¹ h k
subjects-append (x ∷ xs) ys h k = ground (arith, subjects-append xs ys refl k)

opened-append :
    (xs ys : List PlanAction) {us vs : List RolloutId}
    → opened xs ≡ us
    → opened ys ≡ vs
    → opened (xs ++ ys) ≡ us ++ vs
unfolding opened
opened-append [] ys h k = rw⁻¹ h k
opened-append (x ∷ xs) ys h k = ground (arith, opened-append xs ys refl k)

append_nil {ℓ} : {A : Type ℓ} (xs : List A) → xs ++ [] ≡ xs
append_nil [] = refl
append_nil (x ∷ xs) = ap (λ ys. x ∷ ys) (append_nil xs)

module _ (f : FleetState) (m : SignedManifestSet) (q : QuarantineSet) (now : Time) where
  plan_host-subject :
      (id : RolloutId) (r : RolloutSummary) (host : HostId) (s : HostRolloutState)
      (tick : HashMap Selector ℕ) (rest : List PlanAction)
      → (subjects ((plan_host f m q now id r host s tick).0 ∷ rest) ≡ (id, host) ∷ subjects rest)
        × (opened ((plan_host f m q now id r host s tick).0 ∷ rest) ≡ opened rest)
  unfolding plan_host subjects opened
  plan_host-subject id r host s tick rest =
      elim (Option-cases (evaluate_for_dispatch f m q id host s.target_closure r.channel tick)) [
        | inl k ↦ rw (plan_host, k) (refl, refl)
        | inr (b, k) ↦ rw (plan_host, k) (refl, refl)
      ]

  plan_hosts-subjects :
      (id : RolloutId) (r : RolloutSummary) (states : HashMap (RolloutId × HostId) HostRolloutState)
      (tick : HashMap Selector ℕ)
      → (subjects (plan_hosts f m q now id r states tick).0 ≡ waiting_in id states)
        × (opened (plan_hosts f m q now id r states tick).0 ≡ [])
  unfolding plan_hosts subjects opened waiting_in
  plan_hosts-subjects id r [] tick = (refl, refl)
  plan_hosts-subjects id r (((rid, host), s) ∷ states) tick =
      let as_code = is_candidate-waits id rid s in
      elim (Bool-cases (waits id rid s)) [
        | inl h ↦
            let (same, none_opened) = plan_host-subject id r host s tick _ in
            let (rest, rest_opened) = plan_hosts-subjects id r states _ in
            rw (plan_hosts, as_code, waiting_in, h)
              (same ∙ ap (λ xs. (id, host) ∷ xs) rest, none_opened ∙ rest_opened)
        | inr h ↦ rw (plan_hosts, as_code, waiting_in, h) (plan_hosts-subjects id r states tick)
      ]

  plan_rollouts-subjects :
      (rollouts : HashMap RolloutId RolloutSummary) (tick : HashMap Selector ℕ)
      → (subjects (plan_rollouts f m q now rollouts tick) ≡ waiting f.host_states rollouts)
        × (opened (plan_rollouts f m q now rollouts tick) ≡ [])
  unfolding plan_rollouts subjects opened waiting
  plan_rollouts-subjects [] tick = (refl, refl)
  plan_rollouts-subjects ((id, r) ∷ rollouts) tick = elim (Bool-cases (is_some r.terminal_at)) [
    | inl h ↦ rw (plan_rollouts, waiting, h) (plan_rollouts-subjects rollouts tick)
    | inr h ↦
        let first = (plan_hosts f m q now id r f.host_states tick).0 in
        let counted = (plan_hosts f m q now id r f.host_states tick).1 in
        let later = plan_rollouts f m q now rollouts counted in
        let (here, here_opened) = plan_hosts-subjects id r f.host_states tick in
        let (rest, rest_opened) = plan_rollouts-subjects rollouts counted in
        rw (plan_rollouts, waiting, h)
          (subjects-append first later here rest, opened-append first later here_opened rest_opened)
  ]

  open_rollouts-opened :
      (rollouts : HashMap ChannelId (Verified RolloutManifest))
      → (opened (open_rollouts f rollouts) ≡ missing f.rollouts rollouts)
        × (subjects (open_rollouts f rollouts) ≡ [])
  unfolding open_rollouts opened subjects missing
  open_rollouts-opened [] = (refl, refl)
  open_rollouts-opened ((c, rm) ∷ rollouts) =
      elim (Bool-cases (contains_key f.rollouts (new c rm.inner.channel_ref))) [
        | inl k ↦ rw (open_rollouts, missing, k) (open_rollouts-opened rollouts)
        | inr k ↦
            rw (open_rollouts, missing, k)
              (
                ap (λ xs. new c rm.inner.channel_ref ∷ xs) (open_rollouts-opened rollouts).0,
                (open_rollouts-opened rollouts).1,
              )
      ]

  pub plan_next-covers :
      (subjects (plan_next f m q now) ≡ waiting f.host_states f.rollouts)
      × (opened (plan_next f m q now) ≡ missing f.rollouts m.rollouts)
  unfolding plan_next
  plan_next-covers =
      let (new_rows, no_hosts) = open_rollouts-opened m.rollouts in
      let rows = open_rollouts f m.rollouts in
      let dispatches = plan_rollouts f m q now f.rollouts [] in
      let (hosts, no_rows) = plan_rollouts-subjects f.rollouts [] in
      (
        subjects-append rows dispatches no_hosts hosts,
        opened-append rows dispatches new_rows no_rows ∙ append_nil _,
      )
