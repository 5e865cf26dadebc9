-- ===== src/ControlPlane/Runtime/Heartbeats.antt =====
-- crates/nixfleet-control-plane/src/runtime/reducer.rs: what a heartbeat makes the task do, and the
-- reply to it.
use nixfleet.Prelude.{
  ℕ, Bool, false, Option, none, some, List, [], ◌∷◌, map, if◌then◌else◌, option_beq, string_eq,
  is_some,
}
use nixfleet.Prelude.Int.{pos}
use nixfleet.Proto.{Time, RolloutId, HostId, ClosureHash}
use nixfleet.Proto.Snapshot.{HostRolloutSnapshot}
use nixfleet.Host.State.{
  HostState, HostRolloutState, pending, activating, deferred, soaking, converged, failed, reverted,
}
use nixfleet.Host.Event.{Event}
use nixfleet.Agent.Snapshot.{host_rollout_state_to_snapshot}
use nixfleet.ControlPlane.Io.{Io, Statement}
use nixfleet.ControlPlane.Store.{Db}
use nixfleet.ControlPlane.Store.Records.{active_for_host}
use nixfleet.ControlPlane.Recovery.{compute_replay_from, seq_after, synth_converged_at}
use nixfleet.ControlPlane.Runtime.FleetView.{evaluate_synth_gates}
use nixfleet.ControlPlane.Runtime.HostEvents.{ReducerState, row_loaded, handle_host_event}

pub record HeartbeatReply : Type 0 where
  pub replay_from : Option ℕ
  pub bootstrap_rollouts : List HostRolloutSnapshot

module _ (io : Io) (now : Time) (rs : ReducerState) where
  -- The chain of three events of a host that has been on the target all along.
  unfoldable pub synthesize_chain : Db → HostRolloutState → ClosureHash → Time → Db
  unfolding handle_host_event row_loaded
  synthesize_chain db row agent_current at =
      let acked =
        handle_host_event io now rs db row.hostname row.rollout_id
          (Event.remote_dispatch_ack "" at (seq_after row 1)) in
      let completed =
        handle_host_event io now rs acked row.hostname row.rollout_id
          (Event.remote_activation_completed agent_current (pos 0) at (seq_after row 2)) in
      elim (row_loaded io completed row.rollout_id row.hostname) [
        | none ↦ completed
        | some post_activation ↦ handle_host_event io now rs completed row.hostname row.rollout_id (
            Event.remote_converged (synth_converged_at post_activation.soak_due_at at) agent_current
              (seq_after row 3))
      ]

  -- The event that a row has missed.
  unfoldable pub missed : Db → HostId → HostRolloutState → Event → Db
  unfolding handle_host_event
  missed db host row event = handle_host_event io now rs db host row.rollout_id event

  -- The gate that would have held the dispatch; without manifests none is asked.
  unfoldable pub gate_of : Db → HostRolloutState → Bool
  unfolding evaluate_synth_gates
  gate_of db row = elim rs.manifests [
    | none ↦ false
    | some manifests ↦ is_some (evaluate_synth_gates io db manifests rs.quarantines row)
  ]

  -- The match on one record.
  unfoldable pub synthesize_in :
      HostState → Db → HostId → HostRolloutState → ClosureHash → Time → Db
  unfolding missed gate_of synthesize_chain
  synthesize_in activating db host row agent_current at =
      if string_eq.beq row.target_closure agent_current
      then missed db host row
          (Event.remote_activation_completed agent_current (pos 0) at (seq_after row 1))
      else db
  synthesize_in deferred db host row agent_current at =
      if string_eq.beq row.target_closure agent_current
      then missed db host row
          (Event.remote_activation_completed agent_current (pos 0) at (seq_after row 1))
      else db
  synthesize_in pending db host row agent_current at =
      if string_eq.beq row.target_closure agent_current
      then if gate_of db row then db else synthesize_chain db row agent_current at
      else db
  synthesize_in failed db host row agent_current at =
      if option_beq row.current_closure_at_dispatch (some agent_current)
      then missed db host row
          (Event.remote_rollback_complete agent_current (pos 0) at (seq_after row 1))
      else db
  synthesize_in soaking db host row agent_current at = db
  synthesize_in converged db host row agent_current at = db
  synthesize_in reverted db host row agent_current at = db

  unfoldable pub synthesize_rows : Db → HostId → List HostRolloutState → ClosureHash → Time → Db
  unfolding synthesize_in
  synthesize_rows db host [] agent_current at = db
  synthesize_rows db host (row ∷ rows) agent_current at =
      synthesize_rows (synthesize_in row.state db host row agent_current at) host rows agent_current
        at

  unfoldable pub maybe_synthesize_recovery_completion : Db → HostId → ClosureHash → Time → Db
  unfolding active_for_host synthesize_rows
  maybe_synthesize_recovery_completion db host agent_current at =
      if io.succeeds (Statement.active_for_host host)
      then synthesize_rows db host (active_for_host db.host_rollout_records host) agent_current at
      else db

module _ (io : Io) where
  unfoldable pub build_bootstrap_for_host : Db → HostId → List HostRolloutSnapshot
  unfolding active_for_host host_rollout_state_to_snapshot
  build_bootstrap_for_host db host =
      if io.succeeds (Statement.active_for_host host)
      then map host_rollout_state_to_snapshot (active_for_host db.host_rollout_records host)
      else []

  unfoldable pub reply_to : Db → HostId → Option RolloutId → Option ClosureHash → HeartbeatReply
  unfolding build_bootstrap_for_host compute_replay_from row_loaded
  reply_to db host none current_closure = record {
    replay_from = none;
    bootstrap_rollouts = build_bootstrap_for_host db host;
  }
  reply_to db host (some rollout_id) current_closure = record {
    replay_from = compute_replay_from (row_loaded io db rollout_id host) current_closure;
    bootstrap_rollouts = [];
  }
