-- ===== src/Planner/Tests.antt =====
-- A fleet of two hosts under a budget of one: its plan, and the theorems at it.
use nixfleet.Prelude.{ℕ, ◌≡◌, ◌↔◌, refl, true, false, none, some, List, [], ◌∷◌, All, Option}
use nixfleet.Prelude.HashMap.{HashMap, get}
use nixfleet.Proto.{
  RolloutId, FleetResolved, Host, Selector, RolloutBudget, RolloutManifest, new, Meta,
}
use nixfleet.Host.State.{HostRolloutState, new_pending}
use nixfleet.Planner.Types.{FleetState, SignedManifestSet, RolloutSummary, PlanAction}
use nixfleet.Planner.Gates.{evaluate_for_dispatch}
use nixfleet.Planner.Gates.Passed.{Cleared, evaluate_for_dispatch_iff}
use nixfleet.Planner.Plan.{plan_next}
use nixfleet.Planner.Justified.{Justified, Throughout, plan_next-Justified}
use nixfleet.Planner.Budget.{plan_next-Within}
use nixfleet.Planner.Budget.Counts.{Within}
use nixfleet.Planner.Coverage.{subjects, opened, plan_next-covers}

abbrev meta : Meta
meta = record {
  schema_version = 1;
  signed_at = some 0;
  ci_commit = none;
  signature_algorithm = none;
}

abbrev host_on : Host
host_on = record {
  system = "x86_64-linux";
  tags = [];
  channel = "stable";
  closure_hash = some "new";
  pubkey = none;
  pin = none;
}

abbrev fleet : FleetResolved
fleet = record {
  schema_version = 1;
  hosts = ("a", host_on) ∷ ("b", host_on) ∷ [];
  channels = [];
  rollout_policies = [];
  waves = ("stable", record { hosts = "a" ∷ "b" ∷ []; soak_minutes = 5 } ∷ []) ∷ [];
  edges = [];
  channel_edges = [];
  disruption_budgets = [];
  meta = meta;
}

abbrev everyone : Selector
everyone = record { tags = []; tags_any = []; hosts = []; channel = none; all = true }

abbrev one_at_a_time : RolloutBudget
one_at_a_time = record {
  selector = everyone;
  hosts = "a" ∷ "b" ∷ [];
  max_in_flight = some 1;
  max_in_flight_pct = none;
}

abbrev manifest_for : RolloutManifest
manifest_for = record {
  schema_version = 1;
  display_name = "stable@r2";
  channel = "edge";
  channel_ref = "r2";
  fleet_resolved_hash = "h";
  host_set = [];
  health_gate = record { systemd_failed_units = none };
  disruption_budgets = [];
  meta = meta;
}

abbrev manifests : SignedManifestSet
manifests = record {
  fleet = record { inner = fleet; signed_at = 0 };
  rollouts = ("edge", record { inner = manifest_for; signed_at = 0 }) ∷ [];
}

abbrev id : RolloutId
id = record { text = "stable@r1" }

abbrev stable_summary : RolloutSummary
stable_summary = record {
  rollout_id = id;
  channel = "stable";
  target_ref = "r1";
  opened_at = 0;
  terminal_at = none;
  current_wave = 0;
  budgets = one_at_a_time ∷ [];
}

abbrev record_of : HostRolloutState
unfolding new_pending
record_of = new_pending id "a" "stable" "new" 0 10

abbrev fleet_state : FleetState
fleet_state = record {
  host_states = ((id, "a"), record_of) ∷ ((id, "b"), record_of) ∷ [];
  rollouts = (id, stable_summary) ∷ [];
  outstanding_failing_enforce_probes = [];
}

-- One host is dispatched, the other waits for the budget.
plan : List PlanAction
plan =
    PlanAction.open_rollout (record { text = "edge@r2" }) "edge" "r2"
    ∷ PlanAction.queue_dispatch "a" id "new" 10
    ∷ PlanAction.defer_dispatch "b" id "disruption-budget" "disruption-budget: 1/1 in flight (all)"
    ∷ []

plan_next_example : plan_next fleet_state manifests [] 1 ≡ plan
unfolding plan plan_next get record_of nixfleet.Planner.Gates.Quarantine.check
    nixfleet.Planner.Gates.ChannelEdges.check nixfleet.Planner.Gates.WavePromotion.check
    nixfleet.Planner.Gates.HostEdges.check nixfleet.Planner.Gates.DisruptionBudget.check
    nixfleet.Planner.Gates.ComplianceWave.check nixfleet.Prelude.HashMap.insert
    nixfleet.Prelude.Display.to_string
plan_next_example = refl

plan_next-Justified_example :
    Throughout fleet_state manifests [] 1
      (Justified fleet_state manifests [] 1)
      (λ (σ : Selector). 0)
      (plan_next fleet_state manifests [] 1)
unfolding get
plan_next-Justified_example = plan_next-Justified fleet_state manifests [] 1 (refl, tt)

plan_next-covers_example :
    (subjects (plan_next fleet_state manifests [] 1) ≡ (id, "a") ∷ (id, "b") ∷ [])
    × (opened (plan_next fleet_state manifests [] 1) ≡ record { text = "edge@r2" } ∷ [])
unfolding plan nixfleet.Planner.Coverage.waiting nixfleet.Planner.Coverage.missing
    nixfleet.Planner.Plan.is_candidate nixfleet.Prelude.HashMap.contains_key record_of get new
plan_next-covers_example = plan_next-covers fleet_state manifests [] 1

plan_next-Within_example :
    Within fleet_state (λ (σ : Selector). 0) (plan_next fleet_state manifests [] 1)
unfolding get
plan_next-Within_example = plan_next-Within fleet_state manifests [] 1 (refl, tt)

evaluate_for_dispatch_iff_example :
    (evaluate_for_dispatch fleet_state manifests [] id "a" "new" "stable" [] ≡ none)
    ↔ Cleared fleet_state manifests [] id "a" "new" "stable" []
evaluate_for_dispatch_iff_example =
    evaluate_for_dispatch_iff fleet_state manifests [] id "a" "new" "stable" []
