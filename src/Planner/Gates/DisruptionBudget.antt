-- ===== src/Planner/Gates/DisruptionBudget.antt =====
-- crates/nixfleet-reconciler/src/planner_gates/disruption_budget.rs
use nixfleet.Prelude.{
  ℕ, ◌+◌, ◌-◌, ◌%◌, ◌^◌, min, Bool, true, false, not, Option, none, some, List, [], ◌∷◌, ◌&&◌,
  if◌then◌else◌, contains, string_eq, find, leb, unwrap_or,
}
use nixfleet.Prelude.HashMap.{HashMap, get}
use nixfleet.Proto.{HostId, RolloutId, Selector, selector_eq, RolloutBudget, rollout_id_eq, summary}
use nixfleet.Host.State.{HostState, HostRolloutState, activating, soaking}
use nixfleet.Planner.Types.{FleetState, RolloutSummary, GateBlock}

abbrev pub is_in_flight : HostState → Bool
is_in_flight activating = true
is_in_flight soaking = true
is_in_flight _ = false

-- The inner loop of `in_flight_count`: the hosts of one rollout, in one budget of it. `count` is a
-- u32.
unfoldable pub count_hosts :
    RolloutId → RolloutBudget → HashMap (RolloutId × HostId) HostRolloutState → ℕ → ℕ
unfolding contains
count_hosts rollout_id budget [] count = count
count_hosts rollout_id budget (((rid, hostname), state) ∷ states) count =
    count_hosts rollout_id budget states (
      if rollout_id_eq.beq rid rollout_id
        && contains budget.hosts hostname
        && is_in_flight state.state
      then (count + 1) % 2 ^ 32
      else count)

-- The outer loop: every rollout whose budgets have the selector.
unfoldable pub count_rollouts :
    Selector
    → HashMap (RolloutId × HostId) HostRolloutState
    → HashMap RolloutId RolloutSummary
    → ℕ
    → ℕ
unfolding count_hosts find
count_rollouts selector states [] count = count
count_rollouts selector states ((rollout_id, summary) ∷ rollouts) count =
    count_rollouts selector states rollouts
      (elim (find (λ (b : RolloutBudget). selector_eq.beq b.selector selector) summary.budgets) [
        | none ↦ count
        | some matching_budget ↦ count_hosts rollout_id matching_budget states count
      ])

unfoldable pub in_flight_count : FleetState → Selector → ℕ
unfolding count_rollouts
in_flight_count fleet_state selector =
    count_rollouts selector fleet_state.host_states fleet_state.rollouts 0

-- `tick_dispatched.get(selector).copied().unwrap_or(0)`
unfoldable pub ticked : HashMap Selector ℕ → Selector → ℕ
ticked tick_dispatched selector = unwrap_or (get tick_dispatched selector) 0

-- `in_flight.saturating_add(pending_this_tick)` on u32
unfoldable pub total : FleetState → HashMap Selector ℕ → Selector → ℕ
unfolding in_flight_count ticked
total fleet_state tick_dispatched selector =
    min (in_flight_count fleet_state selector + ticked tick_dispatched selector) (2 ^ 32 - 1)

unfoldable pub check_budgets :
    FleetState → HostId → HashMap Selector ℕ → List RolloutBudget → Option GateBlock
unfolding contains total summary
check_budgets fleet_state host tick_dispatched [] = none
check_budgets fleet_state host tick_dispatched (budget ∷ budgets) =
    let rest = check_budgets fleet_state host tick_dispatched budgets in
    if not (contains budget.hosts host) then rest else elim budget.max_in_flight [
      | none ↦ rest
      | some max ↦
          if leb max (total fleet_state tick_dispatched budget.selector)
          then some (
              GateBlock.disruption_budget (total fleet_state tick_dispatched budget.selector) max
                (summary budget.selector))
          else rest
    ]

unfoldable pub check : FleetState → RolloutId → HostId → HashMap Selector ℕ → Option GateBlock
unfolding check_budgets
check fleet_state rollout_id host tick_dispatched = elim (get fleet_state.rollouts rollout_id) [
  | none ↦ none
  | some rollout ↦ check_budgets fleet_state host tick_dispatched rollout.budgets
]
