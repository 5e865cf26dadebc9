-- ===== src/Host/Error.antt =====
-- crates/nixfleet-state-machine/src/error.rs, and `illegal` of transitions/mod.rs.
use nixfleet.Prelude.{ℕ, String, List, Result}
use nixfleet.Proto.{RolloutId}
use nixfleet.Host.State.{HostState, HostRolloutState}
use nixfleet.Host.Event.{Event, event_name}
use nixfleet.Host.Effect.{Effect}

pub data TransitionError : Type 0 where
  illegal_for_state :
      (from : HostState) (event : String) (rollout_id : RolloutId) (hostname : String)
      → TransitionError
  seq_regression : (got last : ℕ) (rollout_id : RolloutId) (hostname : String) → TransitionError
  invariant : (message : String) → TransitionError
  unimplemented : (from : HostState) (event : String) → TransitionError

-- The type of `step`'s result.
abbrev pub Outcome : Type 0
Outcome = Result (HostRolloutState × List Effect) TransitionError

unfoldable pub illegal : HostRolloutState → Event → TransitionError
unfolding event_name
illegal s e = illegal_for_state s.state (event_name e) s.rollout_id s.hostname
