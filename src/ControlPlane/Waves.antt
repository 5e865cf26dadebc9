-- ===== src/ControlPlane/Waves.antt =====
-- `advance_current_waves` of crates/nixfleet-control-plane/src/runtime/reducer.rs.
use nixfleet.Prelude.{
  inl, inr, ℕ, ◌+◌, ◌%◌, ◌^◌, ◌<◌, ◌≡◌, ◌↔◌, refl, sym, subst, Bool, true, false, Option, none,
  some, List, [], ◌∷◌, arith, if◌then◌else◌, leb, is_some, is_empty, all, All, length, get_elem?,
  Option-cases, string_eq, pair_eq,
}
use nixfleet.Prelude.HashMap.{HashMap, get}
use nixfleet.Proto.{RolloutId, rollout_id_eq, FleetResolved, Wave, HostId}
use nixfleet.Planner.Types.{FleetState, RolloutSummary}
use nixfleet.Planner.Gates.HostEdges.{ordering_eligible}
use nixfleet.Planner.Gates.Conditions.{Settled, ordering_eligible_iff}

-- Every host of the wave has converged or deferred.
unfoldable pub all_ordering_eligible : FleetState → RolloutId → List HostId → Bool
unfolding all ordering_eligible
all_ordering_eligible fleet_state id hosts = all (λ h. ordering_eligible fleet_state id h) hosts

-- The rest of the loop's body, behind the two guards that `bump_of` has (the rollout is not over, its
-- channel has waves): the bump over these waves, if there is one. `current_wave` is a u32.
unfoldable pub wave_bump : FleetState → RolloutId → RolloutSummary → List Wave → Option ℕ
unfolding all_ordering_eligible
wave_bump fleet_state id summary waves =
    if leb (length waves) (summary.current_wave + 1)
    then none
    else elim (get_elem? waves summary.current_wave) [
      | none ↦ none
      | some w ↦
          if is_empty w.hosts
          then none
          else if all_ordering_eligible fleet_state id w.hosts
          then some ((summary.current_wave + 1) % 2 ^ 32)
          else none
    ]

unfoldable pub bump_of : FleetResolved → FleetState → RolloutId → RolloutSummary → Option ℕ
unfolding wave_bump
bump_of fleet fleet_state id summary =
    if is_some summary.terminal_at then none else elim (get fleet.waves summary.channel) [
      | none ↦ none
      | some waves ↦ wave_bump fleet_state id summary waves
    ]

-- The collected bumps, written back: a bump whose write to the database fails is dropped.
unfoldable pub advance_current_waves :
    FleetResolved
    → FleetState
    → (RolloutId → ℕ → Bool)
    → HashMap RolloutId RolloutSummary
    → HashMap RolloutId RolloutSummary
unfolding bump_of
advance_current_waves fleet fleet_state set_current_wave [] = []
advance_current_waves fleet fleet_state set_current_wave ((id, summary) ∷ rollouts) =
    let rest = advance_current_waves fleet fleet_state set_current_wave rollouts in
    elim (bump_of fleet fleet_state id summary) [
      | none ↦ (id, summary) ∷ rest
      | some next_wave ↦
          if set_current_wave id next_wave
          then (id, record summary { current_wave = next_wave }) ∷ rest
          else (id, summary) ∷ rest
    ]

some-injective : (a b : List Wave) → ◌≡◌ {A = Option (List Wave)} (some a) (some b) → a ≡ b
some-injective a b q = ground arith

all_ordering_eligible-All :
    (f : FleetState) (id : RolloutId) (hosts : List HostId)
    → (all_ordering_eligible f id hosts ≡ true)
      ↔ All (λ (h : HostId). Settled (get f.host_states (id, h))) hosts
unfolding all_ordering_eligible all
all_ordering_eligible-All f id [] = (λ h. tt, λ h. refl)
all_ordering_eligible-All f id (h ∷ hosts) =
    ground (arith, all_ordering_eligible-All f id hosts, ordering_eligible_iff f id h)

-- A wave that is done: it has hosts, and each is `Converged` or `Deferred` in the rollout.
abbrev pub Done : FleetState → RolloutId → Option Wave → Type 0
Done f id none = ⊥
Done f id (some w) =
    (is_empty w.hosts ≡ false) × All (λ (h : HostId). Settled (get f.host_states (id, h))) w.hosts

wave_bump_iff :
    (f : FleetState) (id : RolloutId) (summary : RolloutSummary) (waves : List Wave) (n : ℕ)
    → (wave_bump f id summary waves ≡ some n) ↔ (
        (summary.current_wave + 1 < length waves)
        × Done f id (get_elem? waves summary.current_wave)
        × (n ≡ (summary.current_wave + 1) % 2 ^ 32))
unfolding wave_bump
wave_bump_iff f id summary waves n = elim (Option-cases (get_elem? waves summary.current_wave)) [
  | inl k ↦ ground arith
  | inr (w, k) ↦ ground (arith, all_ordering_eligible-All f id w.hosts)
]

-- A rollout's cursor is bumped exactly to the next wave, and exactly if the rollout is not over, the
-- fleet declares waves for its channel, the next wave exists, and the wave at the cursor has hosts,
-- each of which is `Converged` or `Deferred` in this rollout.
pub bump_of_iff :
    (fleet : FleetResolved) (f : FleetState) (id : RolloutId) (summary : RolloutSummary) (n : ℕ)
    → (bump_of fleet f id summary ≡ some n) ↔ (
        (summary.terminal_at ≡ none)
        × (waves : List Wave) × (get fleet.waves summary.channel ≡ some waves)
        × (summary.current_wave + 1 < length waves)
        × Done f id (get_elem? waves summary.current_wave)
        × (n ≡ (summary.current_wave + 1) % 2 ^ 32))
unfolding bump_of
bump_of_iff fleet f id summary n = elim (Option-cases summary.terminal_at) [
  | inr (at, k) ↦ ground arith
  | inl k ↦ elim (Option-cases (get fleet.waves summary.channel)) [
    | inl l ↦ ground arith
    | inr (waves, l) ↦
        rw (bump_of, k, l)
          (
            λ q.
                let (more, done, next) = (wave_bump_iff f id summary waves n).0 q in
                (refl, waves, refl, more, done, next),
            λ (_, others, same, more, done, next). (wave_bump_iff f id summary waves n).1 (
                subst
                  (λ (ws : List Wave).
                    (summary.current_wave + 1 < length ws)
                    × Done f id (get_elem? ws summary.current_wave)
                    × (n ≡ (summary.current_wave + 1) % 2 ^ 32))
                  (sym (some-injective waves others same)) (more, done, next)),
          )
  ]
]
