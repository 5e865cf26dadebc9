-- ===== src/ControlPlane/Tests.antt =====
-- A row that the database lost and a wave that is done: the theorems at them.
use nixfleet.Prelude.{
  ℕ, ◌+◌, ◌<◌, ◌≡◌, ◌↔◌, ◌%◌, ◌^◌, none, some, List, [], ◌∷◌, length, get_elem?, string_eq,
}
use nixfleet.Prelude.HashMap.{get}
use nixfleet.Proto.{RolloutId, RolloutPolicy, OnHealthFailure, Wave, FleetResolved}
use nixfleet.Host.State.{HostState, HostRolloutState, new_pending}
use nixfleet.Planner.Types.{FleetState, RolloutSummary}
use nixfleet.ControlPlane.Waves.{bump_of, Done, bump_of_iff}

abbrev policy : RolloutPolicy
policy = record {
  strategy = "waves";
  waves = [];
  health_gate = record { systemd_failed_units = none };
  on_health_failure = OnHealthFailure.halt;
}

abbrev id : RolloutId
id = record { text = "stable@abc" }

abbrev reopened : HostRolloutState
unfolding new_pending
reopened = new_pending id "web" "stable" "new" 0 10

abbrev stable_summary : RolloutSummary
stable_summary = record {
  rollout_id = id;
  channel = "stable";
  target_ref = "abc";
  opened_at = 0;
  terminal_at = none;
  current_wave = 0;
  budgets = [];
}

abbrev fleet_state : FleetState
fleet_state = record {
  host_states = ((id, "a"), record reopened { state = HostState.deferred }) ∷ [];
  rollouts = (id, stable_summary) ∷ [];
  outstanding_failing_enforce_probes = [];
}

abbrev waves : List Wave
waves =
    record { hosts = "a" ∷ []; soak_minutes = 5 }
    ∷ record { hosts = "b" ∷ []; soak_minutes = 5 }
    ∷ []

abbrev fleet : FleetResolved
fleet = record {
  schema_version = 1;
  hosts = [];
  channels = [];
  rollout_policies = [];
  waves = ("stable", waves) ∷ [];
  edges = [];
  channel_edges = [];
  disruption_budgets = [];
  meta = record {
    schema_version = 1;
    signed_at = some 0;
    ci_commit = none;
    signature_algorithm = none;
  };
}

bump_of_iff_example : (bump_of fleet fleet_state id stable_summary ≡ some 1) ↔ (
    (stable_summary.terminal_at ≡ none)
    × (ws : List Wave) × (get fleet.waves stable_summary.channel ≡ some ws)
    × (stable_summary.current_wave + 1 < length ws)
    × Done fleet_state id (get_elem? ws stable_summary.current_wave)
    × (◌≡◌ {A = ℕ} 1 ((stable_summary.current_wave + 1) % 2 ^ 32)))
bump_of_iff_example = bump_of_iff fleet fleet_state id stable_summary 1
