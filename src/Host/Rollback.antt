-- ===== src/Host/Rollback.antt =====
-- The commands that the reducer gives: switch, roll back, quarantine (transitions/*.rs).
use nixfleet.Prelude.{◌≡◌, refl, Option, none, some, List, [], ◌∷◌, ok, String, arith, string_eq}
use nixfleet.Proto.{
  Time, RolloutPolicy, RolloutId, ClosureHash, OnHealthFailure, halt, rollback_and_halt,
}
use nixfleet.Host.State.{
  HostState, HostRolloutState, pending, activating, deferred, soaking, converged, failed, reverted,
}
use nixfleet.Host.Event.{Event}
use nixfleet.Host.Effect.{
  Effect, local_fire_switch, local_fire_rollback_to, remote_insert_quarantine,
}
use nixfleet.Host.Transitions.{handle_in, step, terminal_handle, rollback_effects}
use nixfleet.Host.Transitions.Pending
use nixfleet.Host.Transitions.Activating
use nixfleet.Host.Transitions.Deferred
use nixfleet.Host.Transitions.Soaking
use nixfleet.Host.Transitions.Failed
use nixfleet.Host.Steps.{step_accepted}

pub data Command : Type 0 where
  switch : RolloutId → ClosureHash → Command
  roll_back : RolloutId → ClosureHash → Command
  quarantine : String → ClosureHash → Command

unfoldable pub commands : List Effect → List Command
commands [] = []
commands (local_fire_switch id target ∷ fx) = switch id target ∷ commands fx
commands (local_fire_rollback_to id prior ∷ fx) = roll_back id prior ∷ commands fx
commands (remote_insert_quarantine channel closure ∷ fx) = quarantine channel closure ∷ commands fx
commands (_ ∷ fx) = commands fx

-- The policy under which a host that sees its own failure decides, in the states where it does.
unfoldable pub verdict : HostState → Event → RolloutPolicy → Option OnHealthFailure
verdict activating (Event.local_activation_failed _ _ _ _) policy = some policy.on_health_failure
verdict soaking (Event.local_sustained_failure_crossed _ _ _ applied _) policy = some applied
verdict _ _ _ = none

abbrev pub back_to_prior : HostRolloutState → Option OnHealthFailure → List Command
back_to_prior s none = []
back_to_prior s (some halt) = []
back_to_prior s (some rollback_and_halt) = elim s.current_closure_at_dispatch [
  | none ↦ []
  | some prior ↦ roll_back s.rollout_id prior ∷ []
]

-- The commands that an accepted event has to cause.
unfoldable pub due_commands : HostRolloutState → Event → RolloutPolicy → List Command
unfolding verdict
due_commands s (Event.local_activate _ _ _ _ _) policy = switch s.rollout_id s.target_closure ∷ []
due_commands s (Event.remote_rollback_complete _ _ _ _) policy =
    quarantine s.channel s.target_closure ∷ []
due_commands s e policy = back_to_prior s (verdict s.state e policy)

handle_in-commands :
    (h : HostState) (s : HostRolloutState) (e : Event) (now : Time) (policy : RolloutPolicy)
    {s' : HostRolloutState} {fx : List Effect}
    → s.state ≡ h
    → handle_in h s e now policy ≡ ok (s', fx)
    → commands fx ≡ due_commands s e policy
unfolding handle_in Pending.handle Activating.handle Deferred.handle Soaking.handle Failed.handle
    terminal_handle rollback_effects commands due_commands verdict
handle_in-commands pending s e now policy q h = ground arith
handle_in-commands activating s e now policy q h = ground arith
handle_in-commands deferred s e now policy q h = ground arith
handle_in-commands soaking s e now policy q h = ground arith
handle_in-commands converged s e now policy q h = ground arith
handle_in-commands failed s e now policy q h = ground arith
handle_in-commands reverted s e now policy q h = ground arith

-- The switches, rollbacks and quarantines that an accepted event causes are exactly these: a local
-- dispatch switches to the record's target; a failed activation in Activating, under the rollout's
-- policy, or a sustained failure in Soaking, under the policy it names, rolls back to the closure
-- the host ran at dispatch if that policy is `RollbackAndHalt` and the closure is known; a reported
-- rollback quarantines the target on the record's channel; every other event causes none.
pub step-commands :
    (s : HostRolloutState) (e : Event) (now : Time) (policy : RolloutPolicy) {s' : HostRolloutState}
    {fx : List Effect}
    → step s e now policy ≡ ok (s', fx)
    → commands fx ≡ due_commands s e policy
step-commands s e now policy h =
    handle_in-commands s.state s e now policy refl (step_accepted s e now policy h).1
