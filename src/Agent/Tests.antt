-- ===== src/Agent/Tests.antt =====
-- One rollout on the agent, from its dispatch to the tick that converges it, and the theorems at it.
use nixfleet.Prelude.{◌≡◌, refl, none, some, [], ◌∷◌, Option, arith}
use nixfleet.Prelude.HashMap.{get}
use nixfleet.Proto.{rollout_id_eq, RolloutId, RolloutPolicy, OnHealthFailure, FleetResolved, Time}
use nixfleet.Host.State.{HostState, HostRolloutState, ProbeMode, ProbeStatus}
use nixfleet.Host.Event.{Event}
use nixfleet.Host.Transitions.{step}
use nixfleet.Planner.Types.{SignedManifestSet}
use nixfleet.Agent.Reducer.{
  Records, run_host_event, run_host_events, run_advance_tick, with_seq, next_seq, pass_gate,
  fail_gate,
}
use nixfleet.Agent.Snapshot.{
  merge_snapshot_into_state, host_rollout_state_to_snapshot,
  merge_snapshot_into_state-host_rollout_state_to_snapshot,
}
use nixfleet.Agent.Numbering.{
  Advanced, run_host_event-Advanced, run_host_event-local_activation_deferred,
}
use nixfleet.Agent.Gates.{EndsIn, pass_gate-EndsIn, fail_gate-EndsIn}

abbrev policy : RolloutPolicy
policy = record {
  strategy = "waves";
  waves = [];
  health_gate = record { systemd_failed_units = none };
  on_health_failure = OnHealthFailure.rollback_and_halt;
}

abbrev fleet : FleetResolved
fleet = record {
  schema_version = 1;
  hosts = [];
  channels =
      (
        "stable",
        record {
          rollout_policy = "slow";
          reconcile_interval_minutes = 1;
          freshness_window = 60;
          signing_interval_minutes = 30;
        },
      )
      ∷ [];
  rollout_policies = ("slow", policy) ∷ [];
  waves = [];
  edges = [];
  channel_edges = [];
  disruption_budgets = [];
  meta = record {
    schema_version = 1;
    signed_at = none;
    ci_commit = none;
    signature_algorithm = none;
  };
}

abbrev manifests : Option SignedManifestSet
manifests = some (record { fleet = record { inner = fleet; signed_at = 0 }; rollouts = [] })

abbrev id : RolloutId
id = record { text = "stable@abc" }

abbrev soaking_record : HostRolloutState
soaking_record = record {
  rollout_id = id;
  hostname = "self";
  channel = "stable";
  state = HostState.soaking;
  target_closure = "new";
  current_closure_at_dispatch = some "old";
  current_closure = some "new";
  reverted_to = none;
  dispatched_at = 0;
  dispatch_acked_at = some 1;
  activation_started_at = some 1;
  activation_completed_at = some 2;
  activation_failed_at = none;
  probe_observed_first_at = none;
  probe_failure_first_at = none;
  soak_due_at = some 10;
  converged_at = none;
  failed_at = none;
  policy_applied = none;
  reverted_at = none;
  probes = [];
  last_event_seq = 4;
}

abbrev failing_record : HostRolloutState
failing_record = record soaking_record {
  probe_failure_first_at = some 0;
  probes =
      (
        "http",
        record {
          status = ProbeStatus.fail;
          mode = ProbeMode.enforce;
          last_observed_at = 3;
          last_pass_at = none;
          failure_reason = some "503";
        },
      )
      ∷ [];
}

abbrev records : Records
records = (id, soaking_record) ∷ []

abbrev topology : Event
topology = Event.local_probe_topology_declared [] 3 0

-- A minute and a second after the failure has been sustained for long enough.
abbrev late : Time
late = 181000000000

run_host_event-Advanced_example :
    Advanced soaking_record (get (run_host_event records manifests 3 id topology).0 id)
unfolding get nixfleet.Agent.Reducer.resolve_policy nixfleet.Agent.Numbering.is_numbered
    nixfleet.Host.Diagram.legal nixfleet.Host.Diagram.claim_refusal
run_host_event-Advanced_example =
    run_host_event-Advanced records manifests 3 id topology soaking_record policy refl refl refl
      (omega arith) refl refl

run_host_event-local_activation_deferred_example :
    run_host_event records manifests 3 id (Event.local_activation_deferred "dbus" 3 0)
    ≡ (records, [])
run_host_event-local_activation_deferred_example =
    run_host_event-local_activation_deferred records manifests 3 id "dbus" 3

pass_gate-EndsIn_example :
    EndsIn HostState.converged (
      step soaking_record
        (with_seq (Event.local_converged_reached 12 "new" 0) (next_seq soaking_record))
        12
        policy)
    × (fail_gate manifests 12 soaking_record ≡ none)
unfolding pass_gate
pass_gate-EndsIn_example =
    pass_gate-EndsIn manifests soaking_record (Event.local_converged_reached 12 "new" 0) 12 policy
      (omega arith) refl

abbrev crossed : Event
crossed =
    Event.local_sustained_failure_crossed late 181 ("http" ∷ []) OnHealthFailure.rollback_and_halt 0

fail_gate-EndsIn_example :
    EndsIn HostState.failed
      (step failing_record (with_seq crossed (next_seq failing_record)) late policy)
unfolding fail_gate get
fail_gate-EndsIn_example =
    fail_gate-EndsIn manifests failing_record crossed late policy (omega arith) refl

merge_snapshot_into_state-host_rollout_state_to_snapshot_example :
    (merge_snapshot_into_state (some failing_record) (host_rollout_state_to_snapshot failing_record)
      ≡ failing_record)
    × (host_rollout_state_to_snapshot (
          merge_snapshot_into_state
            (some failing_record)
            (host_rollout_state_to_snapshot soaking_record))
        ≡ host_rollout_state_to_snapshot soaking_record)
merge_snapshot_into_state-host_rollout_state_to_snapshot_example =
    merge_snapshot_into_state-host_rollout_state_to_snapshot failing_record (some failing_record)
      (host_rollout_state_to_snapshot soaking_record)
