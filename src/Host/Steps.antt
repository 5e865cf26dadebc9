-- ===== src/Host/Steps.antt =====
-- `step` in two parts: the check of the sequence number, and the handler of the state.
use nixfleet.Prelude.{◌≡◌, ◌<◌, ◌≤◌, List, ok, err, arith}
use nixfleet.Proto.{Time, RolloutPolicy}
use nixfleet.Host.State.{
  HostState, HostRolloutState, pending, activating, deferred, soaking, converged, failed, reverted,
}
use nixfleet.Host.Event.{Event, seq}
use nixfleet.Host.Effect.{Effect}
use nixfleet.Host.Error.{seq_regression}
use nixfleet.Host.Transitions.{handle_in, dispatch, step, terminal_handle}
use nixfleet.Host.Transitions.Pending
use nixfleet.Host.Transitions.Activating
use nixfleet.Host.Transitions.Deferred
use nixfleet.Host.Transitions.Soaking
use nixfleet.Host.Transitions.Failed

handle_in-seq :
    (h : HostState) (s : HostRolloutState) (e : Event) (now : Time) (policy : RolloutPolicy)
    {s' : HostRolloutState} {fx : List Effect}
    → handle_in h s e now policy ≡ ok (s', fx)
    → s'.last_event_seq ≡ seq e
unfolding handle_in seq Pending.handle Activating.handle Deferred.handle Soaking.handle
    Failed.handle terminal_handle
handle_in-seq pending s e now policy h = ground arith
handle_in-seq activating s e now policy h = ground arith
handle_in-seq deferred s e now policy h = ground arith
handle_in-seq soaking s e now policy h = ground arith
handle_in-seq converged s e now policy h = ground arith
handle_in-seq failed s e now policy h = ground arith
handle_in-seq reverted s e now policy h = ground arith

module _ (s : HostRolloutState) (e : Event) (now : Time) (policy : RolloutPolicy) where
  pub step_newer : s.last_event_seq < seq e → step s e now policy ≡ handle_in s.state s e now policy
  unfolding step dispatch
  step_newer h = ground arith

  pub step_stale :
      seq e ≤ s.last_event_seq
      → step s e now policy ≡ err (seq_regression (seq e) s.last_event_seq s.rollout_id s.hostname)
  unfolding step dispatch
  step_stale h = ground arith

  pub step_accepted :
      {s' : HostRolloutState} {fx : List Effect}
      → step s e now policy ≡ ok (s', fx)
      → (s.last_event_seq < seq e) × (handle_in s.state s e now policy ≡ ok (s', fx))
  unfolding step dispatch
  step_accepted h = ground arith

  -- An accepted event's number is recorded.
  pub step-seq :
      {s' : HostRolloutState} {fx : List Effect}
      → step s e now policy ≡ ok (s', fx)
      → s'.last_event_seq ≡ seq e
  step-seq h = handle_in-seq s.state s e now policy (step_accepted h).1
