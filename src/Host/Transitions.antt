-- ===== src/Host/Transitions.antt =====
-- crates/nixfleet-state-machine/src/transitions/mod.rs and lib.rs: `dispatch` and `step`.
pub mod Rollback
pub mod Pending
pub mod Activating
pub mod Deferred
pub mod Soaking
pub mod Failed
use nixfleet.Prelude.{String, List, ok, err, if◌then◌else◌, leb}
use nixfleet.Proto.{Time, RolloutPolicy}
use nixfleet.Host.State.{
  HostState, HostRolloutState, pending, activating, deferred, soaking, converged, failed, reverted,
}
use nixfleet.Host.Event.{Event, seq}
use nixfleet.Host.Error.{Outcome, seq_regression, illegal}
unfoldable pub use Rollback.{rollback_effects}
unfoldable pub use Soaking.{update_probe, verify_converged_invariants, is_blocking, first_stamp}
use Pending
use Activating
use Deferred
use Soaking
use Failed

-- `converged::handle` and `reverted::handle`: no event is legal.
unfoldable pub terminal_handle : HostRolloutState → Event → Time → RolloutPolicy → Outcome
unfolding illegal
terminal_handle s e now policy = err (illegal s e)

unfoldable pub handle_in : HostState → HostRolloutState → Event → Time → RolloutPolicy → Outcome
handle_in pending = Pending.handle
handle_in activating = Activating.handle
handle_in deferred = Deferred.handle
handle_in soaking = Soaking.handle
handle_in failed = Failed.handle
handle_in converged = terminal_handle
handle_in reverted = terminal_handle

-- The universal check of the sequence number, then the handler of the state.
unfoldable pub dispatch : HostRolloutState → Event → Time → RolloutPolicy → Outcome
unfolding seq
dispatch s e now policy =
    if leb (seq e) s.last_event_seq
    then err (seq_regression (seq e) s.last_event_seq s.rollout_id s.hostname)
    else handle_in s.state s e now policy

unfoldable pub step : HostRolloutState → Event → Time → RolloutPolicy → Outcome
unfolding dispatch
step s e now policy = dispatch s e now policy
