-- ===== src/Host/Wire.antt =====
-- crates/nixfleet-state-machine/src/wire_conversions.rs: the agent's outbound events as wire events,
-- and the wire events as inputs of the control plane's mirror.
use nixfleet.Prelude.{Option, none, some, map}
use nixfleet.Proto.AgentEvent.{
  AgentEvent, ProbeStatusWire, ProbeModeWire, ProbeTopologyEntryWire, ProbeSubResultWire,
  policy_from_wire, policy_to_wire,
}
use nixfleet.Host.State.{ProbeMode, ProbeStatus, ProbeSubResult}
use nixfleet.Host.Event.{Event, ProbeTopologyEntry}
use nixfleet.Host.Effect.{OutboundAgentEvent}

unfoldable pub status_from_wire : ProbeStatusWire → ProbeStatus
status_from_wire ProbeStatusWire.pass = ProbeStatus.pass
status_from_wire ProbeStatusWire.fail = ProbeStatus.fail

unfoldable pub status_to_wire : ProbeStatus → ProbeStatusWire
status_to_wire ProbeStatus.pass = ProbeStatusWire.pass
status_to_wire ProbeStatus.fail = ProbeStatusWire.fail

unfoldable pub mode_from_wire : ProbeModeWire → ProbeMode
mode_from_wire ProbeModeWire.enforce = ProbeMode.enforce
mode_from_wire ProbeModeWire.observe = ProbeMode.observe
mode_from_wire ProbeModeWire.disabled = ProbeMode.disabled

unfoldable pub mode_to_wire : ProbeMode → ProbeModeWire
mode_to_wire ProbeMode.enforce = ProbeModeWire.enforce
mode_to_wire ProbeMode.observe = ProbeModeWire.observe
mode_to_wire ProbeMode.disabled = ProbeModeWire.disabled

unfoldable pub topology_from_wire : ProbeTopologyEntryWire → ProbeTopologyEntry
unfolding mode_from_wire
topology_from_wire w = record {
  probe_name = w.probe_name;
  kind = w.kind;
  mode = mode_from_wire w.mode;
}

unfoldable pub topology_to_wire : ProbeTopologyEntry → ProbeTopologyEntryWire
unfolding mode_to_wire
topology_to_wire e = record { probe_name = e.probe_name; kind = e.kind; mode = mode_to_wire e.mode }

unfoldable pub sub_result_from_wire : ProbeSubResultWire → ProbeSubResult
unfolding status_from_wire mode_from_wire
sub_result_from_wire w = record {
  control_id = w.control_id;
  status = status_from_wire w.status;
  framework = w.framework;
  article = w.article;
  effective_mode = mode_from_wire w.effective_mode;
  override_reason = w.override_reason;
}

unfoldable pub sub_result_to_wire : ProbeSubResult → ProbeSubResultWire
unfolding status_to_wire mode_to_wire
sub_result_to_wire s = record {
  control_id = s.control_id;
  status = status_to_wire s.status;
  framework = s.framework;
  article = s.article;
  effective_mode = mode_to_wire s.effective_mode;
  override_reason = s.override_reason;
}

-- `sub_results.map(|v| v.into_iter().map(Into::into).collect())`
abbrev pub map_some {ℓ κ} : {A : Type ℓ} {B : Type κ} → (A → B) → Option A → Option B
map_some f none = none
map_some f (some a) = some (f a)

-- `From<AgentEvent> for Event`
unfoldable pub event_from_wire : AgentEvent → Event
unfolding mode_from_wire status_from_wire policy_from_wire
event_from_wire (AgentEvent.dispatch_ack closure at n) = Event.remote_dispatch_ack closure at n
event_from_wire (AgentEvent.activation_started at method n) =
    Event.remote_activation_started at method n
event_from_wire (AgentEvent.activation_completed closure code at n) =
    Event.remote_activation_completed closure code at n
event_from_wire (AgentEvent.activation_failed code tail at n) =
    Event.remote_activation_failed code tail at n
event_from_wire (AgentEvent.activation_deferred component at n) =
    Event.remote_activation_deferred component at n
event_from_wire (AgentEvent.probe_topology_declared probes at n) =
    Event.remote_probe_topology_declared (map topology_from_wire probes) at n
event_from_wire (AgentEvent.probe_observed_first name mode at n) =
    Event.remote_probe_observed_first name (mode_from_wire mode) at n
event_from_wire (AgentEvent.probe_result name mode status at reason subs n) =
    Event.remote_probe_result name (mode_from_wire mode) (status_from_wire status) at reason
      (map_some (map sub_result_from_wire) subs) n
event_from_wire (AgentEvent.probe_failure_first name mode at n) =
    Event.remote_probe_failure_first name (mode_from_wire mode) at n
event_from_wire (AgentEvent.failed at secs failing policy n) =
    Event.remote_failed at secs failing (policy_from_wire policy) n
event_from_wire (AgentEvent.rollback_complete closure code at n) =
    Event.remote_rollback_complete closure code at n
event_from_wire (AgentEvent.converged at closure n) = Event.remote_converged at closure n

-- `From<OutboundAgentEvent> for AgentEvent`
unfoldable pub outbound_to_wire : OutboundAgentEvent → AgentEvent
unfolding mode_to_wire status_to_wire policy_to_wire
outbound_to_wire (OutboundAgentEvent.dispatch_ack closure at n) =
    AgentEvent.dispatch_ack closure at n
outbound_to_wire (OutboundAgentEvent.activation_started at method n) =
    AgentEvent.activation_started at method n
outbound_to_wire (OutboundAgentEvent.activation_completed closure code at n) =
    AgentEvent.activation_completed closure code at n
outbound_to_wire (OutboundAgentEvent.activation_failed code tail at n) =
    AgentEvent.activation_failed code tail at n
outbound_to_wire (OutboundAgentEvent.activation_deferred component at n) =
    AgentEvent.activation_deferred component at n
outbound_to_wire (OutboundAgentEvent.probe_topology_declared probes at n) =
    AgentEvent.probe_topology_declared (map topology_to_wire probes) at n
outbound_to_wire (OutboundAgentEvent.probe_observed_first name mode at n) =
    AgentEvent.probe_observed_first name (mode_to_wire mode) at n
outbound_to_wire (OutboundAgentEvent.probe_result name mode status at reason subs n) =
    AgentEvent.probe_result name (mode_to_wire mode) (status_to_wire status) at reason
      (map_some (map sub_result_to_wire) subs) n
outbound_to_wire (OutboundAgentEvent.probe_failure_first name mode at n) =
    AgentEvent.probe_failure_first name (mode_to_wire mode) at n
outbound_to_wire (OutboundAgentEvent.failed at secs failing policy n) =
    AgentEvent.failed at secs failing (policy_to_wire policy) n
outbound_to_wire (OutboundAgentEvent.rollback_complete closure code at n) =
    AgentEvent.rollback_complete closure code at n
outbound_to_wire (OutboundAgentEvent.converged at closure n) = AgentEvent.converged at closure n
