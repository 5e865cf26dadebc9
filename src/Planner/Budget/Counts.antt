-- ===== src/Planner/Budget/Counts.antt =====
-- What a plan takes from the disruption budgets, and the counts of the tick (planner.rs).
use nixfleet.Prelude.{
  ℕ, ◌+◌, ◌%◌, ◌^◌, ◌≡◌, ap, ◌∙◌, inl, inr, true, ◌&&◌, none, some, List, [], ◌∷◌, arith, All,
  contains, string_eq, Bool-cases, if◌then◌else◌,
}
use nixfleet.Prelude.HashMap.{HashMap, get, insert, get-insert}
use nixfleet.Proto.{HostId, RolloutId, Selector, selector_eq, RolloutBudget, rollout_id_eq}
use nixfleet.Planner.Types.{FleetState, PlanAction, queue_dispatch}
use nixfleet.Planner.Gates.DisruptionBudget.{ticked}
use nixfleet.Planner.Gates.Counted.{load}
use nixfleet.Planner.Gates.Conditions.{Below}
use nixfleet.Planner.Plan.{count_dispatch}

-- How many of the budgets are for the selector and name the host.
unfoldable pub uses : Selector → HostId → List RolloutBudget → ℕ
uses selector host [] = 0
uses selector host (b ∷ budgets) =
    (if selector_eq.beq b.selector selector && contains b.hosts host then 1 else 0)
    + uses selector host budgets

-- The budgets of a rollout.
unfoldable pub budgets_of : FleetState → RolloutId → List RolloutBudget
budgets_of f id = elim (get f.rollouts id) [ none ↦ [] | some r ↦ r.budgets ]

-- What an action takes from the budgets for a selector.
unfoldable pub charge : FleetState → Selector → PlanAction → ℕ
unfolding uses budgets_of
charge f selector (queue_dispatch host id _ _) = uses selector host (budgets_of f id)
charge f selector _ = 0

-- There is room for the dispatch in every budget of its rollout that names its host, on top of the
-- hosts in flight and of what the plan took before, counted in 32 bits.
abbrev pub Room : FleetState → (Selector → ℕ) → PlanAction → Type 0
Room f taken (queue_dispatch host id _ _) =
    All
      (λ (b : RolloutBudget).
        contains b.hosts host ≡ true
        → Below (load f b.selector (taken b.selector % 2 ^ 32)) b.max_in_flight)
      (budgets_of f id)
Room f taken _ = Unit

-- Each action of a plan has room after those before it.
abbrev pub Within : FleetState → (Selector → ℕ) → List PlanAction → Type 0
Within f taken [] = Unit
Within f taken (a ∷ actions) =
    Room f taken a × Within f (λ (σ : Selector). taken σ + charge f σ a) actions

-- What a plan takes for a selector, on top of what was taken.
unfoldable pub spent : FleetState → (Selector → ℕ) → List PlanAction → Selector → ℕ
unfolding charge
spent f taken [] σ = taken σ
spent f taken (a ∷ actions) σ = spent f (λ (τ : Selector). taken τ + charge f τ a) actions σ

-- The counts of the tick are those of the plan so far.
abbrev pub Tracks : HashMap Selector ℕ → (Selector → ℕ) → Type 0
Tracks tick taken = (σ : Selector) → ticked tick σ ≡ taken σ % 2 ^ 32

ticked-insert :
    (tick : HashMap Selector ℕ) (k σ : Selector) (v : ℕ)
    → ticked (insert tick k v) σ ≡ (if selector_eq.beq k σ then v else ticked tick σ)
unfolding ticked
ticked-insert tick k σ v = ground (arith, get-insert tick k σ v)

wrap_suc : (n : ℕ) → (n % 2 ^ 32 + 1) % 2 ^ 32 ≡ (n + 1) % 2 ^ 32
wrap_suc n = omega arith

-- One turn of the loop over the budgets.
tick_budget : HostId → RolloutBudget → HashMap Selector ℕ → HashMap Selector ℕ
tick_budget host b tick =
    if contains b.hosts host
    then insert tick b.selector ((ticked tick b.selector + 1) % 2 ^ 32)
    else tick

tick_budget-ticked :
    (host : HostId) (b : RolloutBudget) (tick : HashMap Selector ℕ) (σ : Selector) (n : ℕ)
    → ticked tick σ ≡ n % 2 ^ 32
    → ticked (tick_budget host b tick) σ
      ≡ (n + (if selector_eq.beq b.selector σ && contains b.hosts host then 1 else 0)) % 2 ^ 32
unfolding tick_budget
tick_budget-ticked host b tick σ n h = elim (Bool-cases (selector_eq.beq b.selector σ)) [
  | inl same ↦
      let key = (selector_eq.beq_iff b.selector σ).0 same in
      ground (
        arith,
        ticked-insert tick b.selector σ ((ticked tick b.selector + 1) % 2 ^ 32),
        wrap_suc n,
        ap (ticked tick) key,
      )
  | inr other ↦
      ground (arith, ticked-insert tick b.selector σ ((ticked tick b.selector + 1) % 2 ^ 32))
]

pub count_dispatch-ticked :
    (host : HostId) (budgets : List RolloutBudget) (tick : HashMap Selector ℕ) (σ : Selector)
    (n : ℕ)
    → ticked tick σ ≡ n % 2 ^ 32
    → ticked (count_dispatch host budgets tick) σ ≡ (n + uses σ host budgets) % 2 ^ 32
unfolding count_dispatch uses tick_budget
count_dispatch-ticked host [] tick σ n h = ground arith
count_dispatch-ticked host (b ∷ budgets) tick σ n h =
    let one = if selector_eq.beq b.selector σ && contains b.hosts host then 1 else 0 in
    count_dispatch-ticked host budgets (tick_budget host b tick) σ (n + one)
      (tick_budget-ticked host b tick σ n h)
    ∙ ap (λ k. k % 2 ^ 32) (omega arith)
