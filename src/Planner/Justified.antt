-- ===== src/Planner/Justified.antt =====
-- Why each action of a plan is in it, and which hosts a plan acts on (planner.rs).
use nixfleet.Prelude.{
  ℕ, ◌+◌, ◌%◌, ◌^◌, ◌≡◌, ◌⊎◌, refl, ap, ◌∙◌, List, ◌++◌, inl, inr, true, false, Option, none, some,
  [], ◌∷◌, arith, Any, here, there, string_eq, is_some, unwrap_or, Option-cases, Bool-cases,
}
use nixfleet.Prelude.HashMap.{HashMap, contains_key, get}
use nixfleet.Proto.{
  Time, HostId, RolloutId, ChannelId, Selector, RolloutManifest, rollout_id_eq, new,
}
use nixfleet.Host.State.{HostRolloutState, pending}
use nixfleet.Planner.Types.{
  FleetState, SignedManifestSet, QuarantineSet, RolloutSummary, PlanAction, GateBlock, Verified,
  open_rollout, queue_dispatch, defer_dispatch, record_halt_lifted, discriminator, reason,
}
use nixfleet.Planner.Gates.{evaluate_for_dispatch}
use nixfleet.Planner.Gates.Passed.{Cleared, evaluate_for_dispatch_iff}
use nixfleet.Planner.Gates.DisruptionBudget.{ticked}
use nixfleet.Planner.Budget.{Unique, plan_host-Kept, plan_hosts-Kept}
use nixfleet.Planner.Budget.Counts.{Tracks, charge, spent}
use nixfleet.Planner.Plan.{
  open_rollouts, is_candidate, plan_host, plan_hosts, plan_rollouts, plan_next,
}

-- A record that waits for its first dispatch.
abbrev pub Waiting : HostRolloutState → Type 0
Waiting s = (s.state ≡ pending) × (s.dispatch_acked_at ≡ none)

module _ (f : FleetState) (m : SignedManifestSet) (q : QuarantineSet) (now : Time) where
  -- The action is about a waiting host of the rollout: a dispatch of the host's own target that no
  -- gate holds, or a deferral with the gate that holds it. The gates count what the plan took before.
  abbrev For :
      (Selector → ℕ)
      → RolloutId
      → RolloutSummary
      → PlanAction
      → (RolloutId × HostId) × HostRolloutState
      → Type 0
  For taken id r (queue_dispatch host rollout target due) (key, s) =
      (rollout ≡ id)
      × (key ≡ (id, host))
      × Waiting s
      × (target ≡ s.target_closure)
      × (due ≡ unwrap_or s.soak_due_at now)
      × (tick : HashMap Selector ℕ) × Tracks tick taken
      × Cleared f m q id host target r.channel tick
  For taken id r (defer_dispatch host rollout gate why) (key, s) =
      (rollout ≡ id)
      × (key ≡ (id, host))
      × Waiting s
      × (b : GateBlock) × (gate ≡ discriminator b)
      × (why ≡ reason b)
      × (tick : HashMap Selector ℕ) × Tracks tick taken
      × (evaluate_for_dispatch f m q id host s.target_closure r.channel tick ≡ some b)
  For taken id r (open_rollout _ _ _) _ = ⊥
  For taken id r (record_halt_lifted _) _ = ⊥

  -- The action opens the rollout that a channel's manifest names, which has no row yet.
  abbrev Opens : PlanAction → ChannelId × Verified RolloutManifest → Type 0
  Opens (open_rollout id channel target_ref) (c, rm) =
      (channel ≡ c)
      × (target_ref ≡ rm.inner.channel_ref)
      × (id ≡ new c rm.inner.channel_ref)
      × (contains_key f.rollouts id ≡ false)
  Opens _ _ = ⊥

  -- The action is about a waiting host of a rollout that is not over.
  abbrev Acts : (Selector → ℕ) → HashMap RolloutId RolloutSummary → PlanAction → Type 0
  Acts taken rollouts a =
      Any
        (λ (r : RolloutId × RolloutSummary).
          (r.1.terminal_at ≡ none) × Any (For taken r.0 r.1 a) f.host_states)
        rollouts

  -- Each action satisfies `P` at what the plan took from the budgets before it.
  abbrev pub Throughout :
      ((Selector → ℕ) → PlanAction → Type 0) → (Selector → ℕ) → List PlanAction → Type 0
  Throughout P taken [] = Unit
  Throughout P taken (a ∷ actions) =
      P taken a × Throughout P (λ (σ : Selector). taken σ + charge f σ a) actions

  -- The reason of an action of the plan, after what the plan took.
  abbrev pub Justified : (Selector → ℕ) → PlanAction → Type 0
  Justified taken a = Any (Opens a) m.rollouts ⊎ Acts taken f.rollouts a

  Throughout-map :
      {P Q : (Selector → ℕ) → PlanAction → Type 0}
      → ((t : Selector → ℕ) (a : PlanAction) → P t a → Q t a)
      → (taken : Selector → ℕ) (actions : List PlanAction) → Throughout P taken actions
      → Throughout Q taken actions
  Throughout-map g taken [] h = tt
  Throughout-map g taken (a ∷ actions) (h, hs) =
      (g taken a h, Throughout-map g (λ (σ : Selector). taken σ + charge f σ a) actions hs)

  Throughout-append :
      (P : (Selector → ℕ) → PlanAction → Type 0) (taken : Selector → ℕ) (xs ys : List PlanAction)
      → Throughout P taken xs
      → Throughout P (spent f taken xs) ys
      → Throughout P taken (xs ++ ys)
  unfolding spent
  Throughout-append P taken [] ys hx hy = hy
  Throughout-append P taken (a ∷ xs) ys (h, hx) hy =
      (h, Throughout-append P (λ (σ : Selector). taken σ + charge f σ a) xs ys hx hy)

  candidate_Waiting :
      (id rid : RolloutId) (s : HostRolloutState)
      → is_candidate id rid s ≡ true
      → (rid ≡ id) × Waiting s
  unfolding is_candidate
  candidate_Waiting id rid s h = ground (arith, rollout_id_eq.beq_iff rid id)

  plan_host-For :
      (id : RolloutId) (r : RolloutSummary) (rid : RolloutId) (host : HostId) (s : HostRolloutState)
      (tick : HashMap Selector ℕ) (taken : Selector → ℕ)
      → is_candidate id rid s ≡ true
      → Tracks tick taken
      → For taken id r (plan_host f m q now id r host s tick).0 ((rid, host), s)
  unfolding plan_host
  plan_host-For id r rid host s tick taken h tracks =
      let (same, waiting) = candidate_Waiting id rid s h in
      let key : (rid, host) ≡ (id, host) = ap (λ x. (x, host)) same in
      elim (Option-cases (evaluate_for_dispatch f m q id host s.target_closure r.channel tick)) [
        | inl k ↦
            let free =
              (evaluate_for_dispatch_iff f m q id host s.target_closure r.channel tick).0 k in
            rw (plan_host, k) (refl, key, waiting, refl, refl, tick, tracks, free)
        | inr (b, k) ↦ rw (plan_host, k) (refl, key, waiting, b, refl, refl, tick, tracks, k)
      ]

  plan_hosts-For :
      (id : RolloutId) (r : RolloutSummary) (states : HashMap (RolloutId × HostId) HostRolloutState)
      (tick : HashMap Selector ℕ) (taken : Selector → ℕ)
      → get f.rollouts id ≡ some r
      → Tracks tick taken
      → Throughout
          (λ (t : Selector → ℕ) (a : PlanAction). Any (For t id r a) states)
          taken
          (plan_hosts f m q now id r states tick).0
  unfolding plan_hosts
  plan_hosts-For id r [] tick taken row tracks = tt
  plan_hosts-For id r (((rid, host), s) ∷ states) tick taken row tracks =
      elim (Bool-cases (is_candidate id rid s)) [
        | inl h ↦
            let counted = (plan_host-Kept f m q now id r host s tick taken row tracks).1 in
            rw (plan_hosts, h)
              (
                here (plan_host-For id r rid host s tick taken h tracks),
                Throughout-map (λ t a. there) _ _ (plan_hosts-For id r states _ _ row counted),
              )
        | inr h ↦
            rw (plan_hosts, h)
              (Throughout-map (λ t a. there) taken _
                (plan_hosts-For id r states tick taken row tracks))
      ]

  is_some-none : (o : Option Time) → is_some o ≡ false → o ≡ none
  is_some-none o h = ground arith

  plan_rollouts-Acts :
      (rollouts : HashMap RolloutId RolloutSummary) (tick : HashMap Selector ℕ)
      (taken : Selector → ℕ)
      → Unique f rollouts
      → Tracks tick taken
      → Throughout
          (λ (t : Selector → ℕ). Acts t rollouts)
          taken
          (plan_rollouts f m q now rollouts tick)
  unfolding plan_rollouts
  plan_rollouts-Acts [] tick taken unique tracks = tt
  plan_rollouts-Acts ((id, r) ∷ rollouts) tick taken (row, unique) tracks =
      elim (Bool-cases (is_some r.terminal_at)) [
        | inr h ↦
            let kept = plan_hosts-Kept f m q now id r f.host_states tick taken row tracks in
            rw (plan_rollouts, h)
              (Throughout-append _ taken _ _
                (Throughout-map (λ t a x. here (is_some-none r.terminal_at h, x)) taken _
                  (plan_hosts-For id r f.host_states tick taken row tracks))
                (Throughout-map (λ t a. there) _ _
                  (plan_rollouts-Acts rollouts _ _ unique kept.tracked)))
        | inl h ↦
            rw (plan_rollouts, h)
              (Throughout-map (λ t a. there) taken _
                (plan_rollouts-Acts rollouts tick taken unique tracks))
      ]

  open_rollouts-Opens :
      (rollouts : HashMap ChannelId (Verified RolloutManifest)) (taken : Selector → ℕ)
      → Throughout
          (λ (t : Selector → ℕ) (a : PlanAction). Any (Opens a) rollouts)
          taken
          (open_rollouts f rollouts)
  unfolding open_rollouts
  open_rollouts-Opens [] taken = tt
  open_rollouts-Opens ((c, rm) ∷ rollouts) taken =
      elim (Bool-cases (contains_key f.rollouts (new c rm.inner.channel_ref))) [
        | inl h ↦
            rw (open_rollouts, h)
              (Throughout-map (λ t a. there) taken _ (open_rollouts-Opens rollouts taken))
        | inr h ↦
            rw (open_rollouts, h)
              (
                here (refl, refl, refl, h),
                Throughout-map (λ t a. there) _ _ (open_rollouts-Opens rollouts _),
              )
      ]

  open_rollouts-spent :
      (rollouts : HashMap ChannelId (Verified RolloutManifest)) (taken : Selector → ℕ)
      → Tracks [] taken
      → Tracks [] (λ (σ : Selector). spent f taken (open_rollouts f rollouts) σ)
  unfolding open_rollouts spent charge
  open_rollouts-spent [] taken tracks = tracks
  open_rollouts-spent ((c, rm) ∷ rollouts) taken tracks =
      elim (Bool-cases (contains_key f.rollouts (new c rm.inner.channel_ref))) [
        | inl h ↦ rw (open_rollouts, h) (open_rollouts-spent rollouts taken tracks)
        | inr h ↦
            rw (open_rollouts, h)
              (open_rollouts-spent rollouts (λ (σ : Selector). taken σ + 0)
                (λ σ. tracks σ ∙ ap (λ n. n % 2 ^ 32) (omega arith)))
      ]

  -- Every action of the plan has its reason: an opened rollout is the one that some channel's
  -- manifest names and that has no row; a queued dispatch is for a Pending, unacknowledged host of a
  -- rollout that is not over, carries that host's target and soak deadline, and no gate holds it; a
  -- deferral is for such a host too, and names the gate that holds it. The gates are asked with
  -- counts of the tick that are, modulo 2^32, what the dispatches earlier in the plan took from each
  -- selector's budgets. The rollouts have unique ids.
  pub plan_next-Justified :
      Unique f f.rollouts → Throughout Justified (λ (σ : Selector). 0) (plan_next f m q now)
  unfolding plan_next ticked get
  plan_next-Justified unique =
      let zero_taken : Selector → ℕ = λ σ. 0 in
      Throughout-append Justified zero_taken _ _
        (Throughout-map (λ t a. inl) zero_taken _ (open_rollouts-Opens m.rollouts zero_taken))
        (Throughout-map (λ t a. inr) _ _
          (plan_rollouts-Acts f.rollouts [] _ unique
            (open_rollouts-spent m.rollouts zero_taken (λ σ. refl))))
