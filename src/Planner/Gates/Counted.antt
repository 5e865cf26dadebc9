-- ===== src/Planner/Gates/Counted.antt =====
-- The counts of the gates, as sums (planner_gates/disruption_budget.rs, compliance_wave.rs).
use nixfleet.Prelude.{
  ℕ, ◌+◌, ◌-◌, ◌%◌, ◌^◌, ◌≡◌, ◌<◌, inl, inr, sym, ap, subst, ◌∙◌, Bool, ◌&&◌, none, some, List, [],
  ◌∷◌, arith, contains, string_eq, pair_eq, Option-cases, unwrap_or, find, min, if◌then◌else◌,
}
use nixfleet.Prelude.HashMap.{HashMap, get}
use nixfleet.Proto.{HostId, RolloutId, rollout_id_eq, Selector, RolloutBudget, selector_eq, Wave}
use nixfleet.Host.State.{
  HostState, HostRolloutState, pending, activating, deferred, soaking, failed, converged, reverted,
}
use nixfleet.Planner.Types.{FleetState, RolloutSummary}
use nixfleet.Planner.Gates.DisruptionBudget.{
  total, ticked, is_in_flight, count_hosts, count_rollouts, in_flight_count,
}
use nixfleet.Planner.Gates.ComplianceWave.{count_wave, count_waves}

-- The failing enforced probes of a wave's hosts, and of several waves'.
abbrev pub failures_in : HashMap HostId ℕ → List HostId → ℕ
failures_in per_host [] = 0
failures_in per_host (h ∷ hosts) = unwrap_or (get per_host h) 0 + failures_in per_host hosts

abbrev pub failures_of : HashMap HostId ℕ → List Wave → ℕ
failures_of per_host [] = 0
failures_of per_host (w ∷ waves) = failures_in per_host w.hosts + failures_of per_host waves

count_wave-failures_in :
    (per_host : HashMap HostId ℕ) (hosts : List HostId) (n : ℕ)
    → n < 2 ^ 64
    → count_wave per_host hosts n ≡ (n + failures_in per_host hosts) % 2 ^ 64
unfolding count_wave
count_wave-failures_in per_host [] n small = omega arith
count_wave-failures_in per_host (h ∷ hosts) n small = elim (Option-cases (get per_host h)) [
  | inl k ↦ rw (count_wave, k) (count_wave-failures_in per_host hosts n small ∙ omega arith)
  | inr (v, k) ↦ ground (
    arith,
    count_wave-failures_in per_host hosts n small,
    count_wave-failures_in per_host hosts ((n + v) % 2 ^ 64),
  )
]

pub count_waves-failures_of :
    (per_host : HashMap HostId ℕ) (waves : List Wave) (n : ℕ)
    → n < 2 ^ 64
    → count_waves per_host waves n ≡ (n + failures_of per_host waves) % 2 ^ 64
unfolding count_waves
count_waves-failures_of per_host [] n small = omega arith
count_waves-failures_of per_host (w ∷ waves) n small =
    let first = count_wave-failures_in per_host w.hosts n small in
    let rest =
      count_waves-failures_of per_host waves (count_wave per_host w.hosts n)
        (subst (λ k. k < 2 ^ 64) (sym first) (omega arith)) in
    rest ∙ ap (λ k. (k + failures_of per_host waves) % 2 ^ 64) first ∙ omega arith

-- 1 for a host that is being switched or soaks.
abbrev pub moving : HostState → ℕ
moving pending = 0
moving activating = 1
moving deferred = 0
moving soaking = 1
moving failed = 0
moving converged = 0
moving reverted = 0

-- The hosts in flight of one rollout that a budget names.
abbrev pub flying : RolloutId → RolloutBudget → HashMap (RolloutId × HostId) HostRolloutState → ℕ
flying id b [] = 0
flying id b (((rid, host), s) ∷ states) =
    (if rollout_id_eq.beq rid id && contains b.hosts host then moving s.state else 0)
    + flying id b states

-- The hosts in flight under a selector: of each rollout, those that its first budget for it names.
abbrev pub in_flight :
    Selector → HashMap (RolloutId × HostId) HostRolloutState → HashMap RolloutId RolloutSummary → ℕ
unfolding find
in_flight σ states [] = 0
in_flight σ states ((id, r) ∷ rollouts) =
    elim (find (λ (b : RolloutBudget). selector_eq.beq b.selector σ) r.budgets) [
      | none ↦ 0
      | some b ↦ flying id b states
    ]
    + in_flight σ states rollouts

counted : HostState → Bool → ℕ → ℕ
counted h b n = if b && is_in_flight h then (n + 1) % 2 ^ 32 else n

counted-moving :
    (h : HostState) (b : Bool) (n : ℕ)
    → n < 2 ^ 32
    → counted h b n ≡ (n + (if b then moving h else 0)) % 2 ^ 32
unfolding counted
counted-moving h b n small = ground arith

turn :
    (id rid : RolloutId) (b : RolloutBudget) (host : HostId) (s : HostRolloutState) (n : ℕ)
    → n < 2 ^ 32
    → (if rollout_id_eq.beq rid id && contains b.hosts host && is_in_flight s.state
        then (n + 1) % 2 ^ 32
        else n)
      ≡ (n + (if rollout_id_eq.beq rid id && contains b.hosts host then moving s.state else 0))
        % 2 ^ 32
turn id rid b host s n small =
    ground (arith, counted-moving s.state (rollout_id_eq.beq rid id && contains b.hosts host) n)

small_mod : (n : ℕ) → n % 2 ^ 32 < 2 ^ 32
small_mod n = omega arith

count_hosts-flying :
    (id : RolloutId) (b : RolloutBudget) (states : HashMap (RolloutId × HostId) HostRolloutState)
    (n : ℕ)
    → n < 2 ^ 32
    → count_hosts id b states n ≡ (n + flying id b states) % 2 ^ 32
unfolding count_hosts
count_hosts-flying id b [] n small = omega arith
count_hosts-flying id b (((rid, host), s) ∷ states) n small =
    let one = if rollout_id_eq.beq rid id && contains b.hosts host then moving s.state else 0 in
    ap (count_hosts id b states) (turn id rid b host s n small)
    ∙ count_hosts-flying id b states ((n + one) % 2 ^ 32) (small_mod (n + one))
    ∙ omega arith

count_rollouts-in_flight :
    (σ : Selector) (states : HashMap (RolloutId × HostId) HostRolloutState)
    (rollouts : HashMap RolloutId RolloutSummary) (n : ℕ)
    → n < 2 ^ 32
    → count_rollouts σ states rollouts n ≡ (n + in_flight σ states rollouts) % 2 ^ 32
unfolding count_rollouts
count_rollouts-in_flight σ states [] n small = omega arith
count_rollouts-in_flight σ states ((id, r) ∷ rollouts) n small =
    elim (Option-cases (find (λ (b : RolloutBudget). selector_eq.beq b.selector σ) r.budgets)) [
      | inl k ↦
          rw (count_rollouts, k) (count_rollouts-in_flight σ states rollouts n small ∙ omega arith)
      | inr (b, k) ↦
          rw (count_rollouts, k)
            (ap (count_rollouts σ states rollouts) (count_hosts-flying id b states n small)
              ∙ count_rollouts-in_flight σ states rollouts _ (small_mod (n + flying id b states))
              ∙ omega arith)
    ]

-- What a budget's selector carries: the hosts in flight in 32 bits, and what the tick has added, up
-- to the largest u32.
unfoldable pub load : FleetState → Selector → ℕ → ℕ
load f σ added = min (in_flight σ f.host_states f.rollouts % 2 ^ 32 + added) (2 ^ 32 - 1)

pub total-load :
    (f : FleetState) (tick : HashMap Selector ℕ) (σ : Selector)
    → total f tick σ ≡ load f σ (ticked tick σ)
unfolding total load in_flight_count
total-load f tick σ =
    ap (λ k. min (k + ticked tick σ) (2 ^ 32 - 1))
      (count_rollouts-in_flight σ f.host_states f.rollouts 0 (omega arith) ∙ omega arith)
