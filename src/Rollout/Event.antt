-- ===== src/Rollout/Event.antt =====
-- crates/nixfleet-state-machine/src/rollout/{event,effect,error}.rs: inputs, outputs and errors.
use nixfleet.Prelude.{ℕ, String, List, Result}
use nixfleet.Prelude.Int.{ℤ}
use nixfleet.Proto.{Time, RolloutId, ChannelId, ChannelRef, HostId, ClosureHash}
use nixfleet.Host.State.{HostState}
use nixfleet.Rollout.State.{RolloutState, RolloutRecord}

pub data RolloutEvent : Type 0 where
  rollout_opened :
      (rollout_id : RolloutId) (channel : ChannelId) (target_ref : ChannelRef) (at : Time)
      → RolloutEvent
  host_joined : (rollout_id : RolloutId) (host_id : HostId) (wave : ℕ) (at : Time) → RolloutEvent
  host_state_changed :
      (rollout_id : RolloutId) (host_id : HostId) (from to : HostState) (at : Time) → RolloutEvent
  wave_advanced : (rollout_id : RolloutId) (from_wave to_wave : ℕ) (at : Time) → RolloutEvent
  rollout_terminal : (rollout_id : RolloutId) (at : Time) → RolloutEvent
  successor_opened :
      (superseded_rollout_id successor_rollout_id : RolloutId) (at : Time) → RolloutEvent
  retention_expired : (rollout_id : RolloutId) (at : Time) → RolloutEvent
  operator_clearance :
      (rollout_id : RolloutId) (operator reason : String) (at : Time) → RolloutEvent

unfoldable pub kind : RolloutEvent → String
kind (rollout_opened _ _ _ _) = "RolloutOpened"
kind (host_joined _ _ _ _) = "HostJoined"
kind (host_state_changed _ _ _ _ _) = "HostStateChanged"
kind (wave_advanced _ _ _ _) = "WaveAdvanced"
kind (rollout_terminal _ _) = "RolloutTerminal"
kind (successor_opened _ _ _) = "SuccessorOpened"
kind (retention_expired _ _) = "RetentionExpired"
kind (operator_clearance _ _ _ _) = "OperatorClearance"

pub data RolloutEffect : Type 0 where
  record_rollout_transition :
      (rollout_id : RolloutId) (from to : RolloutState) (at : Time) → RolloutEffect
  update_current_wave : (rollout_id : RolloutId) (wave : ℕ) → RolloutEffect
  insert_quarantine_from_rollout :
      (channel : ChannelId) (closure_hash : ClosureHash) → RolloutEffect
  schedule_pruning : (rollout_id : RolloutId) (delay_seconds : ℤ) → RolloutEffect

pub data RolloutTransitionError : Type 0 where
  illegal_for_state :
      (from : RolloutState) (event : String) (rollout_id : RolloutId) → RolloutTransitionError
  supersession_expected : (rollout_id : RolloutId) (channel : String) → RolloutTransitionError
  invariant : (message : String) → RolloutTransitionError
  unimplemented : (from : RolloutState) (event : String) → RolloutTransitionError

-- The type of the reducer's result.
abbrev pub RolloutOutcome : Type 0
RolloutOutcome = Result (RolloutRecord × List RolloutEffect) RolloutTransitionError
