-- ===== src/Host/Tests.antt =====
-- A host that goes through one rollout, and one that rolls back: runs of the reducer, and the
-- theorems at them.
use nixfleet.Prelude.{
  length, ◌≤◌, ℕ, ◌≡◌, ◌↔◌, refl, inl, true, false, none, some, List, [], ◌∷◌, ok, err, Option,
  String, string_eq, if◌then◌else◌,
}
use nixfleet.Prelude.HashMap.{HashMap, get}
use nixfleet.Prelude.Int.{pos}
use nixfleet.Proto.{RolloutPolicy, RolloutId, Time, OnHealthFailure}
use nixfleet.Host.State.{HostState, HostRolloutState, new_pending, ProbeMode, ProbeStatus}
use nixfleet.Host.Event.{Event}
use nixfleet.Host.Error.{TransitionError}
use nixfleet.Host.Transitions.{step, update_probe, verify_converged_invariants}
use nixfleet.Host.Mirror.{Mirrors, step-Mirrors, sent, is_local}
use nixfleet.Host.Run.{run, absorb}
use nixfleet.Host.Run.Delivery.{Follows, run-Follows, redelivery_absorbed, arrivals}
use nixfleet.Host.Diagram.{refusal, recorded, claims_converged}
use nixfleet.Host.Diagram.Verdicts.{step-refusal, run_of_IsTerminal, due_refusal}
use nixfleet.Host.Diagram.Trail.{Trail, run-Trail}
use nixfleet.Host.Invariant.{WellFormed, run-WellFormed}
use nixfleet.Host.Convergence.{
  MayConverge, verify_converged_invariants_iff, step_to_converged, get-update_probe,
}
use nixfleet.Host.Rollback.{commands, Command, step-commands}

abbrev policy : RolloutPolicy
policy = record {
  strategy = "waves";
  waves = [];
  health_gate = record { systemd_failed_units = none };
  on_health_failure = OnHealthFailure.rollback_and_halt;
}

abbrev id : RolloutId
id = record { text = "stable@abc" }

abbrev start : HostRolloutState
unfolding new_pending
start = new_pending id "web" "stable" "new" 0 10

abbrev dispatched : Event
dispatched = Event.local_activate "old" "new" 1 10 1

abbrev switched : Event
switched = Event.local_activation_completed "new" (pos 0) 3 2

abbrev probed : Event
probed = Event.local_probe_result "http" ProbeMode.enforce ProbeStatus.pass 5 none none 3

abbrev claimed : Event
claimed = Event.local_converged_reached 12 "new" 4

abbrev broken : Event
broken =
    Event.local_sustained_failure_crossed 6 60 ("http" ∷ []) OnHealthFailure.rollback_and_halt 3

abbrev soak : List (Event × Time)
soak = (dispatched, 1) ∷ (switched, 3) ∷ []

abbrev stream : List (Event × Time)
stream = (dispatched, 1) ∷ (switched, 3) ∷ (probed, 5) ∷ (claimed, 12) ∷ []

abbrev in_soak : HostRolloutState
unfolding run absorb step
in_soak = (run policy start soak).0

abbrev probed_soak : HostRolloutState
unfolding run absorb step
probed_soak = (run policy start ((dispatched, 1) ∷ (switched, 3) ∷ (probed, 5) ∷ [])).0

abbrev done : HostRolloutState
unfolding run absorb step
done = (run policy start stream).0

done-state : done.state ≡ HostState.converged
unfolding done start nixfleet.Host.Transitions.handle_in nixfleet.Host.Transitions.Pending.handle
    nixfleet.Host.Transitions.Activating.handle nixfleet.Host.Transitions.Soaking.handle
    verify_converged_invariants update_probe nixfleet.Prelude.HashMap.insert
done-state = refl

step-Mirrors_example :
    Mirrors start dispatched 1 policy
      (absorb policy start dispatched 1).0
      (absorb policy start dispatched 1).1
unfolding absorb step is_local start nixfleet.Host.Transitions.handle_in
    nixfleet.Host.Transitions.Pending.handle
step-Mirrors_example = step-Mirrors start dispatched 1 policy refl refl

run-Follows_example :
    Follows policy 20 start (run policy start stream).0 (sent (run policy start stream).1)
unfolding is_local
run-Follows_example = run-Follows policy 20 start stream (refl, (refl, (refl, (refl, tt))))

redelivery_absorbed_example :
    run policy (run policy start stream).0 (arrivals 30 (sent (run policy start stream).1))
    ≡ ((run policy start stream).0, [])
unfolding is_local
redelivery_absorbed_example =
    redelivery_absorbed policy 30 start stream (refl, (refl, (refl, (refl, tt))))

step-refusal_example :
    refusal (step in_soak (Event.local_converged_reached 7 "new" 9) 7 policy)
    ≡ some (TransitionError.invariant "Converged event: converged_at before soak_due_at")
unfolding due_refusal run in_soak start nixfleet.Host.Transitions.handle_in
    nixfleet.Host.Transitions.Pending.handle nixfleet.Host.Transitions.Activating.handle
    verify_converged_invariants
step-refusal_example = step-refusal in_soak (Event.local_converged_reached 7 "new" 9) 7 policy

run-WellFormed_example : WellFormed (run policy start stream).0
unfolding start
run-WellFormed_example = run-WellFormed policy start stream (refl, refl, refl, refl, refl)

step_to_converged_example :
    (probed_soak.state ≡ HostState.soaking)
    × (at : Time) × (claims_converged claimed ≡ some (probed_soak.target_closure, at))
    × MayConverge probed_soak probed_soak.target_closure at
    × (done.converged_at ≡ some at)
    × (done.current_closure ≡ some probed_soak.target_closure)
unfolding step run probed_soak start nixfleet.Host.Transitions.handle_in
    nixfleet.Host.Transitions.Pending.handle nixfleet.Host.Transitions.Activating.handle
    nixfleet.Host.Transitions.Soaking.handle verify_converged_invariants update_probe
    nixfleet.Prelude.HashMap.insert
step_to_converged_example = step_to_converged probed_soak claimed 12 policy refl refl

step-commands_example :
    commands (absorb policy in_soak broken 6).1 ≡ Command.roll_back id "old" ∷ []
unfolding absorb step commands run start nixfleet.Host.Transitions.handle_in
    nixfleet.Host.Transitions.Pending.handle nixfleet.Host.Transitions.Activating.handle
    nixfleet.Host.Transitions.Soaking.handle nixfleet.Host.Rollback.due_commands
step-commands_example = step-commands in_soak broken 6 policy refl

run_of_IsTerminal_example : run policy done ((broken, 13) ∷ []) ≡ (done, [])
unfolding run done start nixfleet.Host.Transitions.handle_in
    nixfleet.Host.Transitions.Pending.handle nixfleet.Host.Transitions.Activating.handle
    nixfleet.Host.Transitions.Soaking.handle verify_converged_invariants update_probe
    nixfleet.Prelude.HashMap.insert
run_of_IsTerminal_example = run_of_IsTerminal policy done ((broken, 13) ∷ []) (inl refl)

recorded-stream :
    recorded (run policy start stream).1
    ≡ (HostState.pending, HostState.activating)
      ∷ (HostState.activating, HostState.soaking)
      ∷ (HostState.soaking, HostState.converged)
      ∷ []
unfolding recorded run absorb step start nixfleet.Host.Transitions.handle_in
    nixfleet.Host.Transitions.Pending.handle nixfleet.Host.Transitions.Activating.handle
    nixfleet.Host.Transitions.Soaking.handle verify_converged_invariants update_probe
    nixfleet.Prelude.HashMap.insert
recorded-stream = refl

run-Trail_example :
    Trail start.state (recorded (run policy start stream).1) (run policy start stream).0.state
    × (length (recorded (run policy start stream).1) ≤ 5)
run-Trail_example = run-Trail policy start stream

verify_converged_invariants_iff_example :
    (verify_converged_invariants probed_soak "new" 12 ≡ ok tt) ↔ MayConverge probed_soak "new" 12
verify_converged_invariants_iff_example = verify_converged_invariants_iff probed_soak "new" 12

get-update_probe_example :
    get
      (update_probe probed_soak.probes "http" ProbeMode.enforce ProbeStatus.fail 8 (some "503"))
      "http"
    ≡ some (record {
      status = ProbeStatus.fail;
      mode = ProbeMode.enforce;
      last_observed_at = 8;
      last_pass_at = some 5;
      failure_reason = some "503";
    })
unfolding probed_soak get start nixfleet.Host.Transitions.handle_in
    nixfleet.Host.Transitions.Pending.handle nixfleet.Host.Transitions.Activating.handle
    nixfleet.Host.Transitions.Soaking.handle update_probe nixfleet.Prelude.HashMap.insert
get-update_probe_example =
    get-update_probe probed_soak.probes "http" "http" ProbeMode.enforce ProbeStatus.fail 8
      (some "503")
