-- ===== src/Host/Mirror.antt =====
-- The agent's reducer and the control plane's mirror of it: what the wire carries between them.
use nixfleet.Prelude.{
  ◌≡◌, refl, ◌∙◌, Bool, true, false, none, some, List, [], ◌∷◌, map, ok, err, arith,
}
use nixfleet.Proto.{Time, RolloutPolicy}
use nixfleet.Host.State.{
  HostState, HostRolloutState, ProbeSubResult, pending, activating, deferred, soaking, converged,
  failed, reverted,
}
use nixfleet.Host.Event.{Event, seq, ProbeTopologyEntry}
use nixfleet.Host.Effect.{Effect, OutboundAgentEvent, local_emit_event, remote_append_event_log}
use nixfleet.Host.Error.{Outcome}
use nixfleet.Host.Wire.{
  topology_from_wire, topology_to_wire, sub_result_from_wire, sub_result_to_wire, event_from_wire,
  outbound_to_wire,
}
use nixfleet.Host.Transitions.{handle_in, dispatch, step, terminal_handle, rollback_effects}
use nixfleet.Host.Steps.{step_newer, step_accepted}
use nixfleet.Host.Transitions.Pending
use nixfleet.Host.Transitions.Activating
use nixfleet.Host.Transitions.Deferred
use nixfleet.Host.Transitions.Soaking
use nixfleet.Host.Transitions.Failed

topology_round_trip :
    (ts : List ProbeTopologyEntry) → map topology_from_wire (map topology_to_wire ts) ≡ ts
unfolding topology_from_wire topology_to_wire
topology_round_trip [] = refl
topology_round_trip (t ∷ ts) = ground (arith, topology_round_trip ts)

sub_results_round_trip :
    (rs : List ProbeSubResult) → map sub_result_from_wire (map sub_result_to_wire rs) ≡ rs
unfolding sub_result_from_wire sub_result_to_wire
sub_results_round_trip [] = refl
sub_results_round_trip (r ∷ rs) = ground (arith, sub_results_round_trip rs)

-- What the wire makes of an outbound event: the mirror's input with the same payload.
unfoldable pub mirrored : OutboundAgentEvent → Event
mirrored (OutboundAgentEvent.dispatch_ack c at n) = Event.remote_dispatch_ack c at n
mirrored (OutboundAgentEvent.activation_started at m n) = Event.remote_activation_started at m n
mirrored (OutboundAgentEvent.activation_completed c x at n) =
    Event.remote_activation_completed c x at n
mirrored (OutboundAgentEvent.activation_failed x t at n) = Event.remote_activation_failed x t at n
mirrored (OutboundAgentEvent.activation_deferred c at n) = Event.remote_activation_deferred c at n
mirrored (OutboundAgentEvent.probe_topology_declared ps at n) =
    Event.remote_probe_topology_declared ps at n
mirrored (OutboundAgentEvent.probe_observed_first p m at n) =
    Event.remote_probe_observed_first p m at n
mirrored (OutboundAgentEvent.probe_result p m st at r subs n) =
    Event.remote_probe_result p m st at r subs n
mirrored (OutboundAgentEvent.probe_failure_first p m at n) =
    Event.remote_probe_failure_first p m at n
mirrored (OutboundAgentEvent.failed at secs ps pol n) = Event.remote_failed at secs ps pol n
mirrored (OutboundAgentEvent.rollback_complete c x at n) = Event.remote_rollback_complete c x at n
mirrored (OutboundAgentEvent.converged at c n) = Event.remote_converged at c n

-- The wire loses nothing: an outbound event arrives as the mirror's event with the same payload.
pub event_from_wire-outbound_to_wire :
    (o : OutboundAgentEvent) → event_from_wire (outbound_to_wire o) ≡ mirrored o
unfolding event_from_wire outbound_to_wire mirrored
event_from_wire-outbound_to_wire (OutboundAgentEvent.dispatch_ack c at n) = refl
event_from_wire-outbound_to_wire (OutboundAgentEvent.probe_topology_declared ps at n) =
    ground (arith, topology_round_trip ps)
event_from_wire-outbound_to_wire (OutboundAgentEvent.probe_result p m st at r none n) = ground arith
event_from_wire-outbound_to_wire (OutboundAgentEvent.probe_result p m st at r (some rs) n) =
    ground (arith, sub_results_round_trip rs)
event_from_wire-outbound_to_wire o = ground arith

-- The payloads that an agent's effects send, in order.
unfoldable pub sent : List Effect → List OutboundAgentEvent
sent [] = []
sent (local_emit_event _ payload _ ∷ fx) = payload ∷ sent fx
sent (_ ∷ fx) = sent fx

-- The payloads that the mirror's effects append to the event log, in order.
unfoldable pub logged : List Effect → List OutboundAgentEvent
logged [] = []
logged (remote_append_event_log _ _ payload ∷ fx) = payload ∷ logged fx
logged (_ ∷ fx) = logged fx

-- The payload of an event: what the agent's half sends and the mirror's half logs.
unfoldable pub payload_of : Event → OutboundAgentEvent
payload_of (Event.local_activate c _ at _ n) = OutboundAgentEvent.dispatch_ack c at n
payload_of (Event.local_activation_started at m n) = OutboundAgentEvent.activation_started at m n
payload_of (Event.local_activation_completed c x at n) =
    OutboundAgentEvent.activation_completed c x at n
payload_of (Event.local_activation_deferred c at n) = OutboundAgentEvent.activation_deferred c at n
payload_of (Event.local_activation_failed x t at n) = OutboundAgentEvent.activation_failed x t at n
payload_of (Event.local_probe_topology_declared ps at n) =
    OutboundAgentEvent.probe_topology_declared ps at n
payload_of (Event.local_probe_observed_first p m at n) =
    OutboundAgentEvent.probe_observed_first p m at n
payload_of (Event.local_probe_result p m st at r subs n) =
    OutboundAgentEvent.probe_result p m st at r subs n
payload_of (Event.local_probe_failure_first p m at n) =
    OutboundAgentEvent.probe_failure_first p m at n
payload_of (Event.local_sustained_failure_crossed at secs ps pol n) =
    OutboundAgentEvent.failed at secs ps pol n
payload_of (Event.local_rollback_completed c x at n) = OutboundAgentEvent.rollback_complete c x at n
payload_of (Event.local_converged_reached at c n) = OutboundAgentEvent.converged at c n
payload_of (Event.remote_dispatch_ack c at n) = OutboundAgentEvent.dispatch_ack c at n
payload_of (Event.remote_activation_started at m n) = OutboundAgentEvent.activation_started at m n
payload_of (Event.remote_activation_deferred c at n) = OutboundAgentEvent.activation_deferred c at n
payload_of (Event.remote_activation_completed c x at n) =
    OutboundAgentEvent.activation_completed c x at n
payload_of (Event.remote_activation_failed x t at n) = OutboundAgentEvent.activation_failed x t at n
payload_of (Event.remote_probe_topology_declared ps at n) =
    OutboundAgentEvent.probe_topology_declared ps at n
payload_of (Event.remote_probe_observed_first p m at n) =
    OutboundAgentEvent.probe_observed_first p m at n
payload_of (Event.remote_probe_result p m st at r subs n) =
    OutboundAgentEvent.probe_result p m st at r subs n
payload_of (Event.remote_probe_failure_first p m at n) =
    OutboundAgentEvent.probe_failure_first p m at n
payload_of (Event.remote_failed at secs ps pol n) = OutboundAgentEvent.failed at secs ps pol n
payload_of (Event.remote_rollback_complete c x at n) = OutboundAgentEvent.rollback_complete c x at n
payload_of (Event.remote_converged at c n) = OutboundAgentEvent.converged at c n

-- The event that the mirror receives for an event of the agent.
unfoldable pub mirror_of : Event → Event
unfolding mirrored payload_of
mirror_of e = mirrored (payload_of e)

-- The events that the agent's own workers make.
unfoldable pub is_local : Event → Bool
is_local (Event.local_activate _ _ _ _ _) = true
is_local (Event.local_activation_started _ _ _) = true
is_local (Event.local_activation_completed _ _ _ _) = true
is_local (Event.local_activation_deferred _ _ _) = true
is_local (Event.local_activation_failed _ _ _ _) = true
is_local (Event.local_probe_topology_declared _ _ _) = true
is_local (Event.local_probe_observed_first _ _ _ _) = true
is_local (Event.local_probe_result _ _ _ _ _ _ _) = true
is_local (Event.local_probe_failure_first _ _ _ _) = true
is_local (Event.local_sustained_failure_crossed _ _ _ _ _) = true
is_local (Event.local_rollback_completed _ _ _ _) = true
is_local (Event.local_converged_reached _ _ _) = true
is_local _ = false

abbrev pub effects_of : Outcome → List Effect
effects_of (ok (_, fx)) = fx
effects_of (err _) = []

-- The mirror's half of an agent's step: the step sends one payload; given the event that the wire
-- makes of it, the mirror reaches the same record, and logs the same payload.
pub record Mirrors (s : HostRolloutState) (e : Event) (now : Time) (policy : RolloutPolicy)
    (s' : HostRolloutState) (fx : List Effect) : Type 0 where
  pub one_sent : sent fx ≡ payload_of e ∷ []
  pub log : List Effect
  pub same_state :
      step s (event_from_wire (outbound_to_wire (payload_of e))) now policy ≡ ok (s', log)
  pub same_payload : logged log ≡ payload_of e ∷ []

handle_in-mirror_of :
    (h : HostState) (s : HostRolloutState) (e : Event) (now : Time) (policy : RolloutPolicy)
    {s' : HostRolloutState} {fx : List Effect}
    → is_local e ≡ true
    → handle_in h s e now policy ≡ ok (s', fx)
    → (sent fx ≡ payload_of e ∷ [])
      × (handle_in h s (mirror_of e) now policy
          ≡ ok (s', effects_of (handle_in h s (mirror_of e) now policy)))
      × (logged (effects_of (handle_in h s (mirror_of e) now policy)) ≡ payload_of e ∷ [])
unfolding handle_in Pending.handle Activating.handle Deferred.handle Soaking.handle Failed.handle
    terminal_handle is_local sent logged mirror_of rollback_effects
handle_in-mirror_of pending s e now policy l h = ground arith
handle_in-mirror_of activating s e now policy l h = ground arith
handle_in-mirror_of deferred s e now policy l h = ground arith
handle_in-mirror_of soaking s e now policy l h = ground arith
handle_in-mirror_of converged s e now policy l h = ground arith
handle_in-mirror_of failed s e now policy l h = ground arith
handle_in-mirror_of reverted s e now policy l h = ground arith

seq-mirror_of : (e : Event) → seq (mirror_of e) ≡ seq e
unfolding seq mirror_of
seq-mirror_of e = ground arith

-- The number survives the wire.
pub seq-arrival : (e : Event) → seq (event_from_wire (outbound_to_wire (payload_of e))) ≡ seq e
unfolding mirror_of
seq-arrival e = rw event_from_wire-outbound_to_wire (seq-mirror_of e)

-- A step that the agent accepts for an event of its own workers sends exactly one payload; given
-- the event that the wire makes of that payload, the control plane's mirror of the same record
-- accepts it, reaches the same record, and logs exactly that payload.
pub step-Mirrors :
    (s : HostRolloutState) (e : Event) (now : Time) (policy : RolloutPolicy) {s' : HostRolloutState}
    {fx : List Effect}
    → is_local e ≡ true
    → step s e now policy ≡ ok (s', fx)
    → Mirrors s e now policy s' fx
unfolding mirror_of
step-Mirrors s e now policy {s'} {fx} l h =
    let (newer, accepted) = step_accepted s e now policy h in
    let (one, same, log) = handle_in-mirror_of s.state s e now policy l accepted in
    record {
      one_sent = one;
      log = effects_of (handle_in s.state s (mirror_of e) now policy);
      same_state =
          rw event_from_wire-outbound_to_wire
            (step_newer s (mirror_of e) now policy (rw seq-mirror_of newer) ∙ same);
      same_payload = log;
    }

handle_in_any_time :
    (h : HostState) (s : HostRolloutState) (e : Event) (t u : Time) (policy : RolloutPolicy)
    → handle_in h s e t policy ≡ handle_in h s e u policy
unfolding handle_in Pending.handle Activating.handle Deferred.handle Soaking.handle Failed.handle
    terminal_handle
handle_in_any_time pending s e t u policy = ground arith
handle_in_any_time activating s e t u policy = ground arith
handle_in_any_time deferred s e t u policy = ground arith
handle_in_any_time soaking s e t u policy = ground arith
handle_in_any_time converged s e t u policy = ground arith
handle_in_any_time failed s e t u policy = ground arith
handle_in_any_time reverted s e t u policy = ground arith

-- No handler reads the clock.
pub step_any_time :
    (s : HostRolloutState) (e : Event) (t u : Time) (policy : RolloutPolicy)
    → step s e t policy ≡ step s e u policy
unfolding step dispatch
step_any_time s e t u policy = ground (arith, handle_in_any_time s.state s e t u policy)
