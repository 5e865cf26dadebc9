-- ===== src/Planner/Plan.antt =====
-- crates/nixfleet-reconciler/src/planner.rs: `plan_next`.
use nixfleet.Prelude.{
  ℕ, ◌+◌, ◌*◌, ◌%◌, ◌^◌, Bool, true, false, not, Option, none, some, List, [], ◌∷◌, ◌++◌, ◌&&◌,
  if◌then◌else◌, is_some, contains, unwrap_or, string_eq,
}
use nixfleet.Prelude.HashMap.{HashMap, insert, contains_key}
use nixfleet.Proto.{
  Time, HostId, RolloutId, ChannelId, Selector, selector_eq, RolloutBudget, RolloutManifest,
  rollout_id_eq, new,
}
use nixfleet.Host.State.{HostState, HostRolloutState, pending}
use nixfleet.Planner.Types.{
  FleetState, SignedManifestSet, QuarantineSet, RolloutSummary, PlanAction, Verified, open_rollout,
  queue_dispatch, defer_dispatch, discriminator, reason,
}
use nixfleet.Planner.Gates.{evaluate_for_dispatch}
use nixfleet.Planner.Gates.DisruptionBudget.{ticked}

-- Section 1: the rollouts to open.
unfoldable pub open_rollouts :
    FleetState → HashMap ChannelId (Verified RolloutManifest) → List PlanAction
unfolding new contains_key
open_rollouts fleet_state [] = []
open_rollouts fleet_state ((channel, rollout_manifest) ∷ rollouts) =
    let channel_ref = rollout_manifest.inner.channel_ref in
    let rest = open_rollouts fleet_state rollouts in
    if not (contains_key fleet_state.rollouts (new channel channel_ref))
    then open_rollout (new channel channel_ref) channel channel_ref ∷ rest
    else rest

-- `*tick_dispatched.entry(selector).or_insert(0) += 1` on u32, for every budget of the host.
unfoldable pub count_dispatch :
    HostId → List RolloutBudget → HashMap Selector ℕ → HashMap Selector ℕ
unfolding contains ticked
count_dispatch host [] tick_dispatched = tick_dispatched
count_dispatch host (budget ∷ budgets) tick_dispatched = count_dispatch host budgets (
    if contains budget.hosts host
    then insert tick_dispatched budget.selector
        ((ticked tick_dispatched budget.selector + 1) % 2 ^ 32)
    else tick_dispatched)

-- The three `continue`s of the walk: the host belongs to the rollout, is `Pending`, and has not
-- acknowledged a dispatch.
abbrev pub is_pending : HostState → Bool
is_pending pending = true
is_pending _ = false

unfoldable pub is_candidate : RolloutId → RolloutId → HostRolloutState → Bool
is_candidate rollout_id rid state =
    rollout_id_eq.beq rid rollout_id
    && is_pending state.state
    && not (is_some state.dispatch_acked_at)

module _ (fleet_state : FleetState) (manifests : SignedManifestSet) (quarantines : QuarantineSet)
    (now : Time) where
  -- A candidate's action, and the counts after it.
  unfoldable pub plan_host :
      RolloutId
      → RolloutSummary
      → HostId
      → HostRolloutState
      → HashMap Selector ℕ
      → PlanAction × HashMap Selector ℕ
  unfolding evaluate_for_dispatch count_dispatch discriminator reason
  plan_host rollout_id summary host state tick =
      elim (evaluate_for_dispatch fleet_state manifests quarantines rollout_id host
        state.target_closure summary.channel tick) [
          | some b ↦ (defer_dispatch host rollout_id (discriminator b) (reason b), tick)
          | none ↦ (
            queue_dispatch host rollout_id state.target_closure (unwrap_or state.soak_due_at now),
            count_dispatch host summary.budgets tick,
          )
        ]

  -- The walk over the hosts for one rollout.
  unfoldable pub plan_hosts :
      RolloutId
      → RolloutSummary
      → HashMap (RolloutId × HostId) HostRolloutState
      → HashMap Selector ℕ
      → List PlanAction × HashMap Selector ℕ
  unfolding plan_host is_candidate
  plan_hosts rollout_id summary [] tick = ([], tick)
  plan_hosts rollout_id summary (((rid, host), state) ∷ states) tick =
      let (action, counted) = plan_host rollout_id summary host state tick in
      let (taken, tick1) = plan_hosts rollout_id summary states counted in
      let skipped = plan_hosts rollout_id summary states tick in
      if is_candidate rollout_id rid state then (action ∷ taken, tick1) else skipped

  -- Section 2: the walk over the rollouts.
  unfoldable pub plan_rollouts :
      HashMap RolloutId RolloutSummary → HashMap Selector ℕ → List PlanAction
  unfolding plan_hosts
  plan_rollouts [] tick = []
  plan_rollouts ((rollout_id, summary) ∷ rollouts) tick =
      let (actions, tick1) = plan_hosts rollout_id summary fleet_state.host_states tick in
      let closed = plan_rollouts rollouts tick in
      let later = plan_rollouts rollouts tick1 in
      if is_some summary.terminal_at then closed else actions ++ later

  unfoldable pub plan_next : List PlanAction
  unfolding open_rollouts plan_rollouts
  plan_next = open_rollouts fleet_state manifests.rollouts ++ plan_rollouts fleet_state.rollouts []

-- A minute in nanoseconds.
abbrev minute : ℕ
minute = 60000000000

unfoldable pub compute_soak_due_at : Time → ℕ → Time
compute_soak_due_at dispatched_at soak_minutes = dispatched_at + soak_minutes * minute

-- The rollout of the first entry of the map that names the host.
unfoldable pub active_rollout_for_host :
    HashMap (RolloutId × HostId) HostRolloutState → HostId → Option RolloutId
active_rollout_for_host [] host_id = none
active_rollout_for_host (((rid, h), state) ∷ states) host_id =
    let rest = active_rollout_for_host states host_id in
    if string_eq.beq h host_id then some rid else rest
