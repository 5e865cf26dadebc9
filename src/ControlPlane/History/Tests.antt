-- ===== src/ControlPlane/History/Tests.antt =====
-- Two rollouts of a channel and a host that acknowledges its dispatch, and the theorems at them.
use nixfleet.Prelude.{
  ◌≡◌, ◌≢◌, ◌⊎◌, refl, inl, inr, true, false, none, some, String, List, [], ◌∷◌, arith,
  if◌then◌else◌, pair_beq, pair_beq_iff, pair_eq, Bool-cases, string_eq, ap, Option,
}
use nixfleet.Prelude.HashMap.{get}
use nixfleet.Prelude.Int.{pos}
use nixfleet.Proto.{Time, RolloutId, rollout_id_eq, RolloutPolicy, OnHealthFailure, FleetResolved}
use nixfleet.Host.State.{HostState, HostRolloutState, new_pending}
use nixfleet.Host.Event.{Event}
use nixfleet.Host.Effect.{Effect, OutboundAgentEvent}
use nixfleet.Rollout.State.{RolloutState, RolloutRecord}
use nixfleet.Planner.Types.{SignedManifestSet}
use nixfleet.Planner.Gates.Quarantine.{check}
use nixfleet.ControlPlane.Io.{Io}
use nixfleet.ControlPlane.Store.{Db}
use nixfleet.ControlPlane.Store.Records.{all_for_rollout}
use nixfleet.ControlPlane.Applier.{open_rollout}
use nixfleet.ControlPlane.Runtime.HostEvents.{ReducerState, handle_host_event}
use nixfleet.ControlPlane.Runtime.{ReducerInput, run_inputs, initial}
use nixfleet.ControlPlane.History.{Advanced, Extends, IsKeyed}
use nixfleet.ControlPlane.History.Inputs.{run_inputs-Advanced, run_inputs-Extends}
use nixfleet.ControlPlane.History.HostRecords.{handle_host_event-step}
use nixfleet.ControlPlane.History.Redelivery.{
  RecordsKeyed, Delivery, delivered, handle_host_event-redelivered,
}
use nixfleet.ControlPlane.Runtime.Heartbeats.{synthesize_in}
use nixfleet.ControlPlane.History.Recovered.{IsIn, synthesize_in-recovers}
use nixfleet.ControlPlane.History.Ended.{NotEnded}
use nixfleet.ControlPlane.History.Terminal.{Converged, handle_host_event-ended}
use nixfleet.ControlPlane.History.Quarantine.{run_inputs-check}
use nixfleet.ControlPlane.History.Supersession.{open_rollout-Closed, Replaced}

-- Every statement succeeds.
abbrev io : Io
io = record { to_rfc3339 = λ at. "2026-01-01T00:00:00+00:00"; succeeds = λ st. true }

abbrev old_id : RolloutId
old_id = record { text = "stable@old" }

abbrev new_id : RolloutId
new_id = record { text = "stable@new" }

abbrev old_row : RolloutRecord
old_row = record {
  rollout_id = old_id;
  channel = "stable";
  target_ref = "old";
  state = RolloutState.active;
  current_wave = 0;
  opened_event_log_seq = none;
  last_transition_event_log_seq = none;
  opened_at = 5;
  terminal_at = none;
  superseded_at = none;
}

abbrev web : HostRolloutState
unfolding new_pending
web = new_pending old_id "web" "stable" "closure" 5 60

abbrev db : Db
db = record {
  rollouts = (old_id, old_row) ∷ [];
  host_rollout_records = ((old_id, "web"), web) ∷ [];
  dispatch_queue = [];
  quarantined_closures = [];
  probe_failures = [];
  event_log = [];
}

keyed : IsKeyed db
unfolding get
keyed id = elim (Bool-cases (rollout_id_eq.beq old_id id)) [
  | inl q ↦ rw q ((rollout_id_eq.beq_iff old_id id).0 q)
  | inr q ↦ rw q tt
]

abbrev policy : RolloutPolicy
policy = record {
  strategy = "waves";
  waves = [];
  health_gate = record { systemd_failed_units = none };
  on_health_failure = OnHealthFailure.halt;
}

abbrev fleet : FleetResolved
fleet = record {
  schema_version = 1;
  hosts = [];
  channels =
      (
        "stable",
        record {
          rollout_policy = "slow";
          reconcile_interval_minutes = 1;
          freshness_window = 60;
          signing_interval_minutes = 30;
        },
      )
      ∷ [];
  rollout_policies = ("slow", policy) ∷ [];
  waves = [];
  edges = [];
  channel_edges = [];
  disruption_budgets = [];
  meta = record {
    schema_version = 1;
    signed_at = some 0;
    ci_commit = some "old";
    signature_algorithm = none;
  };
}

abbrev manifests : SignedManifestSet
manifests = record { fleet = record { inner = fleet; signed_at = 0 }; rollouts = [] }

abbrev state : ReducerState
state = record { manifests = some manifests; quarantines = []; last_heartbeat_at = [] }

abbrev ack : Event
ack = Event.remote_dispatch_ack "prior" 9 1

abbrev acked : HostRolloutState
unfolding web
acked = record web {
  state = HostState.activating;
  current_closure_at_dispatch = some "prior";
  dispatch_acked_at = some 9;
  last_event_seq = 1;
}

abbrev inputs : List ((Io × Time) × ReducerInput)
inputs =
    ((io, 10), ReducerInput.manifest_set_updated manifests)
    ∷ ((io, 11), ReducerInput.host_event "web" old_id ack)
    ∷ ((io, 12), ReducerInput.heartbeat_received "web" none (some "closure") 12)
    ∷ ((io, 13), ReducerInput.plan_tick)
    ∷ []

run_inputs-Advanced_example :
    Advanced old_id (get db.rollouts old_id) (get (run_inputs initial db inputs).1.rollouts old_id)
run_inputs-Advanced_example = run_inputs-Advanced initial db inputs old_id keyed

run_inputs-Extends_example :
    Extends db.event_log (run_inputs initial db inputs).1.event_log
    × Extends db.quarantined_closures (run_inputs initial db inputs).1.quarantined_closures
    × Extends db.probe_failures (run_inputs initial db inputs).1.probe_failures
run_inputs-Extends_example = run_inputs-Extends initial db inputs keyed

run_inputs-check_example :
    ((run_inputs initial db inputs).0.quarantines ≡ [])
    × (check (run_inputs initial db inputs).0.quarantines "stable" "closure" ≡ none)
run_inputs-check_example = run_inputs-check db inputs "stable" "closure"

handle_host_event-step_example :
    get (handle_host_event io 10 state db "web" old_id ack).host_rollout_records (old_id, "web") ≡ (
      if pair_beq {A = RolloutId} {B = String} (old_id, "web") (old_id, "web")
      then some acked
      else get db.host_rollout_records (old_id, "web"))
unfolding nixfleet.ControlPlane.Runtime.HostEvents.row_loaded web
    nixfleet.ControlPlane.Runtime.FleetView.resolve_policy nixfleet.Host.Transitions.step
    nixfleet.Host.Transitions.handle_in nixfleet.Host.Transitions.Pending.handle
handle_host_event-step_example =
    handle_host_event-step io 10 state db "web" old_id ack web manifests policy acked
      (Effect.remote_append_event_log "web" old_id (OutboundAgentEvent.dispatch_ack "prior" 9 1)
        ∷ Effect.record_transition "web" old_id HostState.pending HostState.activating 9
        ∷ [])
      old_id "web" refl (refl, refl) refl refl refl refl

records_keyed : RecordsKeyed db
unfolding get web
records_keyed id host =
    elim (Bool-cases (pair_beq {A = RolloutId} {B = String} (old_id, "web") (id, host))) [
      | inl q ↦
          let same = (pair_beq_iff (old_id, "web") (id, host)).0 q in
          rw q
            (ap (λ (k : RolloutId × String). k.0) same, ap (λ (k : RolloutId × String). k.1) same)
      | inr q ↦ rw q tt
    ]

abbrev failing : Io
failing = record { to_rfc3339 = λ at. ""; succeeds = λ st. false }

abbrev between : List Delivery
between =
    record {
      io = io;
      now = 11;
      rs = state;
      host = "web";
      rollout_id = old_id;
      event = Event.remote_activation_completed "closure" (pos 0) 11 2;
    }
    ∷ []

handle_host_event-redelivered_example :
    handle_host_event failing 90 initial
      (delivered (handle_host_event io 10 state db "web" old_id ack) between)
      "web"
      old_id
      ack
    ≡ delivered (handle_host_event io 10 state db "web" old_id ack) between
unfolding nixfleet.ControlPlane.Runtime.HostEvents.row_loaded web
    nixfleet.ControlPlane.Runtime.FleetView.resolve_policy nixfleet.Host.Transitions.step
    nixfleet.Host.Transitions.handle_in nixfleet.Host.Transitions.Pending.handle
handle_host_event-redelivered_example =
    handle_host_event-redelivered io failing 10 90 state initial db "web" old_id ack between web
      acked manifests policy
      (Effect.remote_append_event_log "web" old_id (OutboundAgentEvent.dispatch_ack "prior" 9 1)
        ∷ Effect.record_transition "web" old_id HostState.pending HostState.activating 9
        ∷ [])
      records_keyed refl refl refl refl refl

-- The one host of a rollout soaks, and its last event makes the rollout `Terminal`.
abbrev soaked : HostRolloutState
unfolding web
soaked = record web {
  state = HostState.soaking;
  current_closure = some "closure";
  last_event_seq = 3;
}

abbrev last : Event
last = Event.remote_converged 90 "closure" 4

abbrev soaking_db : Db
soaking_db = record db {
  rollouts = (old_id, record old_row { state = RolloutState.converging }) ∷ [];
  host_rollout_records = ((old_id, "web"), soaked) ∷ [];
}

soaking-IsKeyed : IsKeyed soaking_db
unfolding get
soaking-IsKeyed id = elim (Bool-cases (rollout_id_eq.beq old_id id)) [
  | inl q ↦ rw q ((rollout_id_eq.beq_iff old_id id).0 q)
  | inr q ↦ rw q tt
]

state_of : Option RolloutRecord → Option RolloutState
state_of none = none
state_of (some r) = some r.state

ends_example :
    state_of (get (handle_host_event io 91 state soaking_db "web" old_id last).rollouts old_id)
    ≡ some RolloutState.terminal
unfolding state_of get handle_host_event nixfleet.Host.Transitions.handle_in
    nixfleet.Host.Transitions.Soaking.handle
    nixfleet.Host.Transitions.Soaking.verify_converged_invariants
    nixfleet.Rollout.Transitions.converging_step
ends_example = refl

handle_host_event-ended_example :
    NotEnded
      (get soaking_db.rollouts old_id)
      (get (handle_host_event io 91 state soaking_db "web" old_id last).rollouts old_id)
    ⊎ ((old_id ≡ old_id)
        × Converged (
            all_for_rollout
              (handle_host_event io 91 state soaking_db "web" old_id last).host_rollout_records
              old_id))
handle_host_event-ended_example =
    handle_host_event-ended io 91 state soaking_db "web" old_id last old_id soaking-IsKeyed

different : old_id ≢ new_id
different q = ground (arith, rollout_id_eq.beq_iff old_id new_id)

open_rollout-Closed_example :
    Replaced (get (open_rollout io manifests 20 db new_id "stable" "new").rollouts old_id)
unfolding get
open_rollout-Closed_example =
    open_rollout-Closed io 20 manifests db new_id old_id "stable" "new" old_row (λ st. refl) keyed
      different refl refl (ground arith) (ground arith)

synthesize_in-recovers_example : IsIn HostState.converged (
    get
      (synthesize_in io 20 state HostState.pending db "web" web "closure" 20).host_rollout_records
      (old_id, "web"))
unfolding get web nixfleet.ControlPlane.Runtime.FleetView.resolve_policy
    nixfleet.ControlPlane.Runtime.Heartbeats.gate_of check nixfleet.Planner.Gates.ChannelEdges.check
    nixfleet.Planner.Gates.WavePromotion.check nixfleet.Planner.Gates.HostEdges.check
    nixfleet.Planner.Gates.DisruptionBudget.check nixfleet.Planner.Gates.ComplianceWave.check
synthesize_in-recovers_example =
    synthesize_in-recovers io 20 state manifests policy _ db web "closure" 20 (λ st. refl) refl refl
      refl refl (omega arith)
