-- ===== src/ControlPlane/Payload.antt =====
-- crates/nixfleet-control-plane/src/runtime/applier.rs: the payloads of the event log. How chrono
-- writes an instant is a parameter.
use nixfleet.Prelude.{String, [], ◌∷◌}
use nixfleet.Proto.{Time, OnHealthFailure, halt, rollback_and_halt}
use nixfleet.Host.State.{
  HostState, ProbeStatus, ProbeMode, ProbeSubResult, pass, fail, enforce, observe, disabled,
}
use nixfleet.Host.Event.{ProbeTopologyEntry}
use nixfleet.Host.Effect.{
  OutboundAgentEvent, dispatch_ack, activation_started, activation_completed, activation_failed,
  activation_deferred, probe_topology_declared, probe_observed_first, probe_result,
  probe_failure_first, rollback_complete,
}
use nixfleet.Rollout.Event.{
  RolloutEvent, rollout_opened, host_joined, host_state_changed, wave_advanced, rollout_terminal,
  successor_opened, retention_expired, operator_clearance,
}
use nixfleet.ControlPlane.Json.{Json, number, integer, string, array, json, items, nullable}

unfoldable pub host_state_str : HostState → String
host_state_str HostState.pending = "Pending"
host_state_str HostState.activating = "Activating"
host_state_str HostState.deferred = "Deferred"
host_state_str HostState.soaking = "Soaking"
host_state_str HostState.converged = "Converged"
host_state_str HostState.failed = "Failed"
host_state_str HostState.reverted = "Reverted"

unfoldable pub probe_status_str : ProbeStatus → String
probe_status_str pass = "pass"
probe_status_str fail = "fail"

unfoldable pub probe_mode_str : ProbeMode → String
probe_mode_str enforce = "enforce"
probe_mode_str observe = "observe"
probe_mode_str disabled = "disabled"

-- `Display` of `OnHealthFailure`
unfoldable pub policy_str : OnHealthFailure → String
policy_str halt = "halt"
policy_str rollback_and_halt = "rollback-and-halt"

unfoldable pub topology_json : ProbeTopologyEntry → Json
unfolding probe_mode_str
topology_json e = json (
    ("probeName", string e.probe_name)
    ∷ ("kind", string e.kind)
    ∷ ("mode", string (probe_mode_str e.mode))
    ∷ [])

unfoldable pub sub_result_json : ProbeSubResult → Json
unfolding probe_mode_str probe_status_str
sub_result_json sr = json (
    ("controlId", string sr.control_id)
    ∷ ("status", string (probe_status_str sr.status))
    ∷ ("framework", string sr.framework)
    ∷ ("article", nullable string sr.article)
    ∷ ("effectiveMode", string (probe_mode_str sr.effective_mode))
    ∷ ("overrideReason", nullable string sr.override_reason)
    ∷ [])

module _ (to_rfc3339 : Time → String) where
  abbrev time : Time → Json
  time at = string (to_rfc3339 at)

  unfoldable pub rollout_event_to_json : RolloutEvent → Json
  unfolding host_state_str
  rollout_event_to_json (rollout_opened rollout_id channel target_ref at) = json (
      ("kind", string "RolloutOpened")
      ∷ ("rolloutId", string rollout_id.text)
      ∷ ("channel", string channel)
      ∷ ("targetRef", string target_ref)
      ∷ ("at", time at)
      ∷ [])
  rollout_event_to_json (host_joined rollout_id host_id wave at) = json (
      ("kind", string "HostJoined")
      ∷ ("rolloutId", string rollout_id.text)
      ∷ ("hostId", string host_id)
      ∷ ("wave", number wave)
      ∷ ("at", time at)
      ∷ [])
  rollout_event_to_json (host_state_changed rollout_id host_id from to at) = json (
      ("kind", string "HostStateChanged")
      ∷ ("rolloutId", string rollout_id.text)
      ∷ ("hostId", string host_id)
      ∷ ("from", string (host_state_str from))
      ∷ ("to", string (host_state_str to))
      ∷ ("at", time at)
      ∷ [])
  rollout_event_to_json (wave_advanced rollout_id from_wave to_wave at) = json (
      ("kind", string "WaveAdvanced")
      ∷ ("rolloutId", string rollout_id.text)
      ∷ ("fromWave", number from_wave)
      ∷ ("toWave", number to_wave)
      ∷ ("at", time at)
      ∷ [])
  rollout_event_to_json (rollout_terminal rollout_id at) = json (
      ("kind", string "RolloutTerminal")
      ∷ ("rolloutId", string rollout_id.text)
      ∷ ("at", time at)
      ∷ [])
  rollout_event_to_json (successor_opened superseded_rollout_id successor_rollout_id at) = json (
      ("kind", string "SuccessorOpened")
      ∷ ("supersededRolloutId", string superseded_rollout_id.text)
      ∷ ("successorRolloutId", string successor_rollout_id.text)
      ∷ ("at", time at)
      ∷ [])
  rollout_event_to_json (retention_expired rollout_id at) = json (
      ("kind", string "RetentionExpired")
      ∷ ("rolloutId", string rollout_id.text)
      ∷ ("at", time at)
      ∷ [])
  rollout_event_to_json (operator_clearance rollout_id operator reason at) = json (
      ("kind", string "OperatorClearance")
      ∷ ("rolloutId", string rollout_id.text)
      ∷ ("operator", string operator)
      ∷ ("reason", string reason)
      ∷ ("at", time at)
      ∷ [])

  unfoldable pub outbound_event_to_json : OutboundAgentEvent → Json
  unfolding probe_mode_str probe_status_str policy_str topology_json sub_result_json items
  outbound_event_to_json (dispatch_ack current_closure_at_dispatch received_at seq) = json (
      ("kind", string "DispatchAck")
      ∷ ("currentClosureAtDispatch", string current_closure_at_dispatch)
      ∷ ("receivedAt", time received_at)
      ∷ ("seq", number seq)
      ∷ [])
  outbound_event_to_json (activation_started started_at switch_method seq) = json (
      ("kind", string "ActivationStarted")
      ∷ ("startedAt", time started_at)
      ∷ ("switchMethod", string switch_method)
      ∷ ("seq", number seq)
      ∷ [])
  outbound_event_to_json
        (activation_completed observed_current_closure exit_code completed_at seq) =
      json (
        ("kind", string "ActivationCompleted")
        ∷ ("observedCurrentClosure", string observed_current_closure)
        ∷ ("exitCode", integer exit_code)
        ∷ ("completedAt", time completed_at)
        ∷ ("seq", number seq)
        ∷ [])
  outbound_event_to_json (activation_failed exit_code stderr_tail failed_at seq) = json (
      ("kind", string "ActivationFailed")
      ∷ ("exitCode", integer exit_code)
      ∷ ("stderrTail", string stderr_tail)
      ∷ ("failedAt", time failed_at)
      ∷ ("seq", number seq)
      ∷ [])
  outbound_event_to_json (activation_deferred component deferred_at seq) = json (
      ("kind", string "ActivationDeferred")
      ∷ ("component", string component)
      ∷ ("deferredAt", time deferred_at)
      ∷ ("seq", number seq)
      ∷ [])
  outbound_event_to_json (probe_topology_declared probes declared_at seq) = json (
      ("kind", string "ProbeTopologyDeclared")
      ∷ ("probes", array (items topology_json probes))
      ∷ ("declaredAt", time declared_at)
      ∷ ("seq", number seq)
      ∷ [])
  outbound_event_to_json (probe_observed_first probe_name mode observed_at seq) = json (
      ("kind", string "ProbeObservedFirst")
      ∷ ("probeName", string probe_name)
      ∷ ("mode", string (probe_mode_str mode))
      ∷ ("observedAt", time observed_at)
      ∷ ("seq", number seq)
      ∷ [])
  outbound_event_to_json
        (probe_result probe_name mode status observed_at failure_reason sub_results seq) =
      json (
        ("kind", string "ProbeResult")
        ∷ ("probeName", string probe_name)
        ∷ ("mode", string (probe_mode_str mode))
        ∷ ("status", string (probe_status_str status))
        ∷ ("observedAt", time observed_at)
        ∷ ("failureReason", nullable string failure_reason)
        ∷ ("subResults", nullable (λ srs. array (items sub_result_json srs)) sub_results)
        ∷ ("seq", number seq)
        ∷ [])
  outbound_event_to_json (probe_failure_first probe_name mode first_failed_at seq) = json (
      ("kind", string "ProbeFailureFirst")
      ∷ ("probeName", string probe_name)
      ∷ ("mode", string (probe_mode_str mode))
      ∷ ("firstFailedAt", time first_failed_at)
      ∷ ("seq", number seq)
      ∷ [])
  outbound_event_to_json
        (OutboundAgentEvent.failed failed_at sustained_duration_secs failing_probes policy_applied
          seq) =
      json (
        ("kind", string "Failed")
        ∷ ("failedAt", time failed_at)
        ∷ ("sustainedDurationSecs", number sustained_duration_secs)
        ∷ ("failingProbes", array (items string failing_probes))
        ∷ ("policyApplied", string (policy_str policy_applied))
        ∷ ("seq", number seq)
        ∷ [])
  outbound_event_to_json (rollback_complete reverted_to_closure exit_code completed_at seq) = json (
      ("kind", string "RollbackComplete")
      ∷ ("revertedToClosure", string reverted_to_closure)
      ∷ ("exitCode", integer exit_code)
      ∷ ("completedAt", time completed_at)
      ∷ ("seq", number seq)
      ∷ [])
  outbound_event_to_json (OutboundAgentEvent.converged converged_at current_closure seq) = json (
      ("kind", string "Converged")
      ∷ ("convergedAt", time converged_at)
      ∷ ("currentClosure", string current_closure)
      ∷ ("seq", number seq)
      ∷ [])
