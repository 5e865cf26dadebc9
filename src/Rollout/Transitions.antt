-- ===== src/Rollout/Transitions.antt =====
-- crates/nixfleet-state-machine/src/rollout/transitions/*.rs: the handler of each state.
use nixfleet.Prelude.{some, [], ◌∷◌, ok, err, ltb, if◌then◌else◌}
use nixfleet.Proto.{Time, RolloutId}
use nixfleet.Host.State.{HostState}
use nixfleet.Rollout.State.{
  RolloutState, RolloutRecord, opening, active, converging, terminal, superseded, pruned,
}
use nixfleet.Rollout.Event.{
  RolloutEvent, RolloutEffect, RolloutTransitionError, RolloutOutcome, kind, rollout_opened,
  host_joined, host_state_changed, wave_advanced, rollout_terminal, successor_opened,
  retention_expired, operator_clearance, record_rollout_transition, update_current_wave,
  illegal_for_state, unimplemented,
}

abbrev pub transition_effect : RolloutRecord → RolloutState → RolloutState → Time → RolloutEffect
transition_effect r from to at = record_rollout_transition r.rollout_id from to at

unfoldable pub rollout_illegal : RolloutState → RolloutEvent → RolloutId → RolloutTransitionError
unfolding kind
rollout_illegal from e rollout_id = illegal_for_state from (kind e) rollout_id

-- The arm for `SuccessorOpened` that every state but `Superseded` and `Pruned` has.
abbrev pub supersede : RolloutState → RolloutRecord → Time → RolloutOutcome
supersede from r at = ok (
  record r { state = superseded; superseded_at = some at },
  transition_effect r from superseded at ∷ [],
)

-- The arm for `RetentionExpired` of the closed states.
abbrev pub prune : RolloutState → RolloutRecord → Time → RolloutOutcome
prune from r at = ok (record r { state = pruned }, transition_effect r from pruned at ∷ [])

-- The arm for `RolloutTerminal` of `Active` and `Converging`.
abbrev pub finish : RolloutState → RolloutRecord → Time → RolloutOutcome
finish from r at = ok (
  record r { state = terminal; terminal_at = some at },
  transition_effect r from terminal at ∷ [],
)

-- The arm for `HostStateChanged` of `Active` and `Converging`.
abbrev pub host_changed : RolloutState → RolloutRecord → HostState → Time → RolloutOutcome
host_changed from r HostState.reverted at = ok (
  record r { state = RolloutState.reverted },
  transition_effect r from RolloutState.reverted at ∷ [],
)
host_changed from r HostState.failed at =
    ok (
      record r { state = RolloutState.failed },
      transition_effect r from RolloutState.failed at ∷ [],
    )
host_changed from r _ at = ok (r, [])

unfoldable pub opening_step : RolloutRecord → RolloutEvent → Time → RolloutOutcome
unfolding rollout_illegal
opening_step r (host_joined _ _ _ at) now =
    ok (record r { state = active }, transition_effect r opening active at ∷ [])
opening_step r (successor_opened _ _ at) now = supersede opening r at
opening_step r e now = err (rollout_illegal opening e r.rollout_id)

unfoldable pub active_step : RolloutRecord → RolloutEvent → Time → RolloutOutcome
unfolding rollout_illegal
active_step r (host_joined _ _ _ _) now = ok (r, [])
active_step r (host_state_changed _ _ _ to at) now = host_changed active r to at
active_step r (wave_advanced _ from_wave to_wave at) now =
    if ltb from_wave to_wave
    then if ltb r.current_wave to_wave
      then ok (record r { current_wave = to_wave }, update_current_wave r.rollout_id to_wave ∷ [])
      else ok (r, [])
    else ok (record r { state = converging }, transition_effect r active converging at ∷ [])
active_step r (rollout_terminal _ at) now = finish active r at
active_step r (successor_opened _ _ at) now = supersede active r at
active_step r e now = err (rollout_illegal active e r.rollout_id)

unfoldable pub converging_step : RolloutRecord → RolloutEvent → Time → RolloutOutcome
unfolding rollout_illegal
converging_step r (wave_advanced _ from_wave to_wave at) now =
    if ltb from_wave to_wave
    then if ltb r.current_wave to_wave
      then ok (
        record r { state = active; current_wave = to_wave },
        transition_effect r converging active at ∷ update_current_wave r.rollout_id to_wave ∷ [],
      )
      else ok (record r { state = active }, transition_effect r converging active at ∷ [])
    else ok (r, [])
converging_step r (rollout_terminal _ at) now = finish converging r at
converging_step r (host_state_changed _ _ _ to at) now = host_changed converging r to at
converging_step r (successor_opened _ _ at) now = supersede converging r at
converging_step r (host_joined _ _ _ _) now = ok (r, [])
converging_step r e now = err (rollout_illegal converging e r.rollout_id)

unfoldable pub terminal_step : RolloutRecord → RolloutEvent → Time → RolloutOutcome
unfolding rollout_illegal
terminal_step r (successor_opened _ _ at) now = supersede terminal r at
terminal_step r (retention_expired _ at) now = prune terminal r at
terminal_step r (rollout_terminal _ _) now = ok (r, [])
terminal_step r (host_state_changed _ _ _ _ _) now = ok (r, [])
terminal_step r (host_joined _ _ _ _) now = ok (r, [])
terminal_step r e now = err (rollout_illegal terminal e r.rollout_id)

unfoldable pub reverted_step : RolloutRecord → RolloutEvent → Time → RolloutOutcome
unfolding rollout_illegal kind
reverted_step r (successor_opened _ _ at) now = supersede RolloutState.reverted r at
reverted_step r (retention_expired _ at) now = prune RolloutState.reverted r at
reverted_step r (operator_clearance id op why at) now =
    err (unimplemented RolloutState.reverted (kind (operator_clearance id op why at)))
reverted_step r (rollout_opened id channel target at) now =
    err (rollout_illegal RolloutState.reverted (rollout_opened id channel target at) r.rollout_id)
reverted_step r e now = ok (r, [])

unfoldable pub failed_step : RolloutRecord → RolloutEvent → Time → RolloutOutcome
unfolding rollout_illegal kind
failed_step r (successor_opened _ _ at) now = supersede RolloutState.failed r at
failed_step r (retention_expired _ at) now = prune RolloutState.failed r at
failed_step r (operator_clearance id op why at) now =
    err (unimplemented RolloutState.failed (kind (operator_clearance id op why at)))
failed_step r (rollout_opened id channel target at) now =
    err (rollout_illegal RolloutState.failed (rollout_opened id channel target at) r.rollout_id)
failed_step r e now = ok (r, [])

unfoldable pub superseded_step : RolloutRecord → RolloutEvent → Time → RolloutOutcome
unfolding rollout_illegal
superseded_step r (retention_expired _ at) now = prune superseded r at
superseded_step r (rollout_opened id channel target at) now =
    err (rollout_illegal superseded (rollout_opened id channel target at) r.rollout_id)
superseded_step r (operator_clearance id op why at) now =
    err (rollout_illegal superseded (operator_clearance id op why at) r.rollout_id)
superseded_step r e now = ok (r, [])

unfoldable pub pruned_step : RolloutRecord → RolloutEvent → Time → RolloutOutcome
unfolding rollout_illegal
pruned_step r e now = err (rollout_illegal pruned e r.rollout_id)

unfoldable pub step_in : RolloutState → RolloutRecord → RolloutEvent → Time → RolloutOutcome
step_in opening = opening_step
step_in active = active_step
step_in converging = converging_step
step_in terminal = terminal_step
step_in RolloutState.reverted = reverted_step
step_in RolloutState.failed = failed_step
step_in superseded = superseded_step
step_in pruned = pruned_step

-- `rollout::step`
unfoldable pub rollout_step : RolloutRecord → RolloutEvent → Time → RolloutOutcome
unfolding step_in
rollout_step r e now = step_in r.state r e now
