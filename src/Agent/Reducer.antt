-- ===== src/Agent/Reducer.antt =====
-- crates/nixfleet-agent/src/runtime/reducer.rs: the operations of the reducer task. The clock's reads
-- within one input are one instant, and what `apply_effect` is called on is the list that is given
-- back.
use nixfleet.Prelude.{
  ℕ, ◌+◌, ◌-◌, ◌/◌, ◌%◌, ◌^◌, String, Bool, true, false, not, ◌&&◌, Option, none, some, List, [],
  ◌∷◌, ◌++◌, ok, err, if◌then◌else◌, ltb, is_empty, string_eq,
}
use nixfleet.Prelude.HashMap.{HashMap, get, insert}
use nixfleet.Proto.{Time, RolloutId, rollout_id_eq, RolloutPolicy, halt, channel}
use nixfleet.Proto.Snapshot.{HostRolloutSnapshot}
use nixfleet.Host.State.{
  HostState, HostRolloutState, ProbeRecord, ProbeMode, ProbeStatus, pass, fail, enforce, observe,
  disabled, soaking, new_pending,
}
use nixfleet.Host.Event.{Event}
use nixfleet.Host.Effect.{Effect}
use nixfleet.Host.Transitions.{step}
use nixfleet.Host.Rehydration.{rehydration_effects}
use nixfleet.Planner.Types.{SignedManifestSet}
use nixfleet.Agent.Snapshot.{merge_snapshot_into_state}

-- The records of the agent, by rollout.
abbrev pub Records : Type 0
Records = HashMap RolloutId HostRolloutState

unfoldable pub resolve_policy : Option SignedManifestSet → String → Option RolloutPolicy
resolve_policy none channel_name = none
resolve_policy (some m) channel_name = elim (get m.fleet.inner.channels channel_name) [
  | none ↦ none
  | some entry ↦ get m.fleet.inner.rollout_policies entry.rollout_policy
]

-- Every `Local*` event but one gets the number.
unfoldable pub with_seq : Event → ℕ → Event
with_seq (Event.local_activate closure target received due _) n =
    Event.local_activate closure target received due n
with_seq (Event.local_activation_started at method _) n = Event.local_activation_started at method n
with_seq (Event.local_activation_completed closure code at _) n =
    Event.local_activation_completed closure code at n
with_seq (Event.local_activation_failed code tail at _) n =
    Event.local_activation_failed code tail at n
with_seq (Event.local_probe_observed_first name mode at _) n =
    Event.local_probe_observed_first name mode at n
with_seq (Event.local_probe_result name mode status at reason subs _) n =
    Event.local_probe_result name mode status at reason subs n
with_seq (Event.local_probe_failure_first name mode at _) n =
    Event.local_probe_failure_first name mode at n
with_seq (Event.local_sustained_failure_crossed at secs failing applied _) n =
    Event.local_sustained_failure_crossed at secs failing applied n
with_seq (Event.local_rollback_completed closure code at _) n =
    Event.local_rollback_completed closure code at n
with_seq (Event.local_converged_reached at closure _) n = Event.local_converged_reached at closure n
with_seq (Event.local_probe_topology_declared probes at _) n =
    Event.local_probe_topology_declared probes at n
with_seq e n = e

unfoldable pub bootstrap_pending_state : RolloutId → String → Time → Time → HostRolloutState
unfolding channel new_pending
bootstrap_pending_state id target due now = new_pending id "self" (channel id) target now due

-- The record that an event is for, if it is for one.
unfoldable pub record_for : Records → RolloutId → Event → Time → Option HostRolloutState
unfolding bootstrap_pending_state
record_for records id e now = elim (get records id) [
  | some s ↦ some s
  | none ↦ elim e [
    | Event.local_activate _ target _ due _ ↦ some (bootstrap_pending_state id target due now)
    | _ ↦ none
  ]
]

-- `state.last_event_seq + 1` on u64
abbrev pub next_seq : HostRolloutState → ℕ
next_seq s = (s.last_event_seq + 1) % 2 ^ 64

unfoldable pub run_host_event :
    Records → Option SignedManifestSet → Time → RolloutId → Event → Records × List Effect
unfolding record_for resolve_policy with_seq
run_host_event records manifests now id e = elim (record_for records id e now) [
  | none ↦ (records, [])
  | some s ↦ elim (resolve_policy manifests s.channel) [
    | none ↦ (records, [])
    | some policy ↦ elim (step s (with_seq e (next_seq s)) now policy) [
      | ok (s', fx) ↦ (insert records id s', fx)
      | err _ ↦ (records, [])
    ]
  ]
]

abbrev pub is_failing : ProbeMode → ProbeStatus → Bool
is_failing enforce pass = false
is_failing enforce fail = true
is_failing observe _ = false
is_failing disabled _ = false

unfoldable pub collect_failing_enforce_probes : HashMap String ProbeRecord → List String
collect_failing_enforce_probes [] = []
collect_failing_enforce_probes ((name, r) ∷ probes) =
    let rest = collect_failing_enforce_probes probes in
    if is_failing r.mode r.status then name ∷ rest else rest

-- The filter and the test on one probe: it is not enforced, or it passes.
unfoldable pub all_enforce_probes_pass : HashMap String ProbeRecord → Bool
all_enforce_probes_pass [] = true
all_enforce_probes_pass ((_, r) ∷ probes) =
    not (is_failing r.mode r.status) && all_enforce_probes_pass probes

abbrev pub is_soaking : HostState → Bool
is_soaking soaking = true
is_soaking _ = false

-- `num_seconds` of a duration that is not negative
abbrev pub num_seconds : ℕ → ℕ
num_seconds nanos = nanos / 1000000000

abbrev pub sustained_failure_threshold_secs : ℕ
sustained_failure_threshold_secs = 120

-- The fail-gate's event for one record, if it has one.
unfoldable pub fail_gate : Option SignedManifestSet → Time → HostRolloutState → Option Event
unfolding collect_failing_enforce_probes resolve_policy
fail_gate manifests now s =
    if not (is_soaking s.state) then none else elim s.probe_failure_first_at [
      | none ↦ none
      | some first_failed ↦
          if ltb (num_seconds (now - first_failed)) sustained_failure_threshold_secs
          then none
          else if is_empty (collect_failing_enforce_probes s.probes)
          then none
          else some (
              Event.local_sustained_failure_crossed now (num_seconds (now - first_failed))
                (collect_failing_enforce_probes s.probes)
                (elim (resolve_policy manifests s.channel) [
                  | none ↦ halt
                  | some p ↦ p.on_health_failure
                ])
                0)
    ]

-- The pass-gate's event for one record, if it has one.
unfoldable pub pass_gate : Time → HostRolloutState → Option Event
unfolding all_enforce_probes_pass
pass_gate now s = if not (is_soaking s.state) then none else elim s.soak_due_at [
  | none ↦ none
  | some soak_due_at ↦ if ltb now soak_due_at then none else elim s.current_closure [
    | none ↦ none
    | some current ↦
        if not (string_eq.beq current s.target_closure)
        then none
        else if not (all_enforce_probes_pass s.probes)
        then none
        else some (Event.local_converged_reached now current 0)
  ]
]

-- The loop of one gate over the records.
unfoldable pub synthesize : (HostRolloutState → Option Event) → Records → List (RolloutId × Event)
synthesize gate [] = []
synthesize gate ((id, s) ∷ records) =
    let rest = synthesize gate records in elim (gate s) [ none ↦ rest | some e ↦ (id, e) ∷ rest ]

unfoldable pub run_host_events :
    Records → Option SignedManifestSet → Time → List (RolloutId × Event) → Records × List Effect
unfolding run_host_event
run_host_events records manifests now [] = (records, [])
run_host_events records manifests now ((id, e) ∷ events) =
    let (records1, fx) = run_host_event records manifests now id e in
    let (records2, gx) = run_host_events records1 manifests now events in (records2, fx ++ gx)

unfoldable pub run_advance_tick : Records → Option SignedManifestSet → Time → Records × List Effect
unfolding run_host_events synthesize fail_gate pass_gate
run_advance_tick records manifests now =
    run_host_events records manifests now
      (synthesize (fail_gate manifests now) records ++ synthesize (pass_gate now) records)

unfoldable pub apply_bootstrap_snapshot : Records → HostRolloutSnapshot → Records × List Effect
unfolding merge_snapshot_into_state rehydration_effects
apply_bootstrap_snapshot records w =
    let s = merge_snapshot_into_state (get records w.rollout_id) w in
    (insert records w.rollout_id s, rehydration_effects s)

pub data ReducerInput : Type 0 where
  host_event : (rollout_id : RolloutId) (event : Event) → ReducerInput
  agent_advance_tick : ReducerInput
  manifest_set_updated : SignedManifestSet → ReducerInput
  bootstrap_host : HostRolloutSnapshot → ReducerInput

unfoldable pub handle_input :
    Records × Option SignedManifestSet
    → Time
    → ReducerInput
    → (Records × Option SignedManifestSet) × List Effect
unfolding run_host_event run_advance_tick apply_bootstrap_snapshot
handle_input (records, manifests) now (host_event id e) =
    let (records1, fx) = run_host_event records manifests now id e in ((records1, manifests), fx)
handle_input (records, manifests) now agent_advance_tick =
    let (records1, fx) = run_advance_tick records manifests now in ((records1, manifests), fx)
handle_input (records, manifests) now (manifest_set_updated set) = ((records, some set), [])
handle_input (records, manifests) now (bootstrap_host w) =
    let (records1, fx) = apply_bootstrap_snapshot records w in ((records1, manifests), fx)
