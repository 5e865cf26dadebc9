-- ===== src/Planner/Budget.antt =====
-- The disruption budgets within one plan (planner.rs, planner_gates/disruption_budget.rs).
pub mod Counts
use nixfleet.Prelude.{
  ℕ, ◌+◌, ◌-◌, ◌%◌, ◌^◌, ◌≡◌, refl, sym, ap, ◌∙◌, inl, inr, true, ◌&&◌, none, some, List, [], ◌∷◌,
  ◌++◌, arith, All, All-map, contains, string_eq, is_some, Option-cases, Bool-cases, if◌then◌else◌,
  min, unwrap_or, subst,
}
use nixfleet.Prelude.HashMap.{HashMap, contains_key, get, insert, get-insert}
use nixfleet.Proto.{
  new, Time, HostId, RolloutId, Selector, selector_eq, RolloutBudget, rollout_id_eq, ChannelId,
  RolloutManifest,
}
use nixfleet.Host.State.{HostRolloutState}
use nixfleet.Planner.Types.{
  FleetState, SignedManifestSet, QuarantineSet, RolloutSummary, PlanAction, queue_dispatch,
  Verified,
}
use nixfleet.Planner.Gates.{evaluate_for_dispatch}
use nixfleet.Planner.Gates.DisruptionBudget.{ticked, total, in_flight_count}
use nixfleet.Planner.Gates.Counted.{load, total-load}
use nixfleet.Planner.Gates.Conditions.{Below}
use nixfleet.Planner.Gates.Passed.{evaluate_for_dispatch_iff}
use nixfleet.Planner.Plan.{
  count_dispatch, is_candidate, plan_host, plan_hosts, plan_rollouts, plan_next, open_rollouts,
}
use nixfleet.Planner.Budget.Counts.{
  uses, budgets_of, charge, Room, Within, spent, Tracks, count_dispatch-ticked,
}

-- The map's keys are unique: each entry is what its key finds.
abbrev pub Unique : FleetState → HashMap RolloutId RolloutSummary → Type 0
Unique f rollouts = All (λ (r : RolloutId × RolloutSummary). get f.rollouts r.0 ≡ some r.1) rollouts

module _ (f : FleetState) (m : SignedManifestSet) (q : QuarantineSet) (now : Time) where
  -- What a plan's part gives: it is within the budgets, and its counts go on from the plan so far.
  pub record Kept (taken : Selector → ℕ) (actions : List PlanAction) (tick : HashMap Selector ℕ)
      : Type 0 where
    pub within : Within f taken actions
    pub tracked : Tracks tick (λ (σ : Selector). spent f taken actions σ)

  room_of :
      (id : RolloutId) (r : RolloutSummary) (host : HostId) (tick : HashMap Selector ℕ)
      (taken : Selector → ℕ)
      → Tracks tick taken
      → All
          (λ (b : RolloutBudget).
            contains b.hosts host ≡ true
            → Below (load f b.selector (unwrap_or (get tick b.selector) 0)) b.max_in_flight)
          r.budgets
      → All
          (λ (b : RolloutBudget).
            contains b.hosts host ≡ true
            → Below (load f b.selector (taken b.selector % 2 ^ 32)) b.max_in_flight)
          r.budgets
  unfolding ticked
  room_of id r host tick taken tracks =
      All-map
        (λ b h named.
          subst (λ n. Below (load f b.selector n) b.max_in_flight) (tracks b.selector) (h named))
        r.budgets

  pub plan_host-Kept :
      (id : RolloutId) (r : RolloutSummary) (host : HostId) (s : HostRolloutState)
      (tick : HashMap Selector ℕ) (taken : Selector → ℕ)
      → get f.rollouts id ≡ some r
      → Tracks tick taken
      → Room f taken (plan_host f m q now id r host s tick).0
        × Tracks
            (plan_host f m q now id r host s tick).1
            (λ (σ : Selector). taken σ + charge f σ (plan_host f m q now id r host s tick).0)
  unfolding plan_host charge budgets_of
  plan_host-Kept id r host s tick taken row tracks =
      elim (Option-cases (evaluate_for_dispatch f m q id host s.target_closure r.channel tick)) [
        | inl k ↦
            let free =
              (evaluate_for_dispatch_iff f m q id host s.target_closure r.channel tick).0 k in
            rw (plan_host, k, charge, budgets_of, row)
              (
                room_of id r host tick taken tracks (rw row at free.budgets),
                λ σ. count_dispatch-ticked host r.budgets tick σ (taken σ) (tracks σ),
              )
        | inr (b, k) ↦
            rw (plan_host, k, charge) (tt, λ σ. tracks σ ∙ ap (λ n. n % 2 ^ 32) (omega arith))
      ]

  pub plan_hosts-Kept :
      (id : RolloutId) (r : RolloutSummary) (states : HashMap (RolloutId × HostId) HostRolloutState)
      (tick : HashMap Selector ℕ) (taken : Selector → ℕ)
      → get f.rollouts id ≡ some r
      → Tracks tick taken
      → Kept taken
          (plan_hosts f m q now id r states tick).0
          (plan_hosts f m q now id r states tick).1
  unfolding plan_hosts spent
  plan_hosts-Kept id r [] tick taken row tracks = record { within = tt; tracked = tracks }
  plan_hosts-Kept id r (((rid, host), s) ∷ states) tick taken row tracks =
      elim (Bool-cases (is_candidate id rid s)) [
        | inl h ↦
            let (room, counted) = plan_host-Kept id r host s tick taken row tracks in
            let rest = plan_hosts-Kept id r states _ _ row counted in
            rw (plan_hosts, h) (record { within = (room, rest.within); tracked = rest.tracked })
        | inr h ↦ rw (plan_hosts, h) (plan_hosts-Kept id r states tick taken row tracks)
      ]

  Within-append :
      (taken : Selector → ℕ) (xs ys : List PlanAction)
      → Within f taken xs
      → Within f (spent f taken xs) ys
      → Within f taken (xs ++ ys)
  unfolding spent
  Within-append taken [] ys hx hy = hy
  Within-append taken (a ∷ xs) ys (room, hx) hy =
      (room, Within-append (λ (σ : Selector). taken σ + charge f σ a) xs ys hx hy)

  plan_rollouts-Within :
      (rollouts : HashMap RolloutId RolloutSummary) (tick : HashMap Selector ℕ)
      (taken : Selector → ℕ)
      → Unique f rollouts
      → Tracks tick taken
      → Within f taken (plan_rollouts f m q now rollouts tick)
  unfolding plan_rollouts
  plan_rollouts-Within [] tick taken unique tracks = tt
  plan_rollouts-Within ((id, r) ∷ rollouts) tick taken (row, unique) tracks =
      elim (Bool-cases (is_some r.terminal_at)) [
        | inl h ↦ rw (plan_rollouts, h) (plan_rollouts-Within rollouts tick taken unique tracks)
        | inr h ↦
            let kept = plan_hosts-Kept id r f.host_states tick taken row tracks in
            rw (plan_rollouts, h)
              (Within-append taken _ _ kept.within
                (plan_rollouts-Within rollouts _ _ unique kept.tracked))
      ]

  open_rollouts-Within :
      (rollouts : HashMap ChannelId (Verified RolloutManifest)) (taken : Selector → ℕ)
      (rest : List PlanAction)
      → ((later : Selector → ℕ) → Tracks [] later → Within f later rest)
      → Tracks [] taken
      → Within f taken (open_rollouts f rollouts ++ rest)
  unfolding open_rollouts charge
  open_rollouts-Within [] taken rest h tracks = h taken tracks
  open_rollouts-Within ((c, rm) ∷ rollouts) taken rest h tracks =
      elim (Bool-cases (contains_key f.rollouts (new c rm.inner.channel_ref))) [
        | inl k ↦ rw (open_rollouts, k) (open_rollouts-Within rollouts taken rest h tracks)
        | inr k ↦
            rw (open_rollouts, k, charge)
              (
                tt,
                open_rollouts-Within rollouts _ rest h
                    (λ σ. tracks σ ∙ ap (λ n. n % 2 ^ 32) (omega arith)),
              )
      ]

  -- In a plan for rollouts with unique ids, whenever a dispatch is queued, every budget of its
  -- rollout that names its host and sets a maximum has room: the hosts in flight under the budget's
  -- selector and the dispatches that the plan queued before under it, counted in 32 bits and added
  -- up to at most the largest u32, are fewer than the maximum.
  pub plan_next-Within : Unique f f.rollouts → Within f (λ (σ : Selector). 0) (plan_next f m q now)
  unfolding plan_next ticked get
  plan_next-Within unique =
      open_rollouts-Within m.rollouts (λ σ. 0) _
        (λ later tracks. plan_rollouts-Within f.rollouts [] later unique tracks) (λ σ. refl)
