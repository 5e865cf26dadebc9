-- ===== src/Host/Diagram/Verdicts.antt =====
-- Which events `step` accepts, and with which error it refuses the others.
use nixfleet.Prelude.{
  Option, some, leb, if◌then◌else◌, ◌≡◌, ◌⊎◌, refl, inl, inr, false, List, [], ◌∷◌, arith,
  Result-cases,
}
use nixfleet.Proto.{Time, RolloutPolicy}
use nixfleet.Host.State.{HostState, HostRolloutState, converged, reverted}
use nixfleet.Host.Event.{Event, seq}
use nixfleet.Host.Error.{TransitionError, illegal, seq_regression}
use nixfleet.Host.Transitions.{step, dispatch}
use nixfleet.Host.Steps.{step_accepted}
use nixfleet.Host.Run.{absorb, run}
use nixfleet.Host.Diagram.{legal, refusal, claim_refusal, handle_in-refusal}

-- The error with which an event has to be refused, or none.
unfoldable pub due_refusal : HostRolloutState → Event → Option TransitionError
unfolding claim_refusal legal seq
due_refusal s e =
    if leb (seq e) s.last_event_seq
    then some (seq_regression (seq e) s.last_event_seq s.rollout_id s.hostname)
    else if legal s.state e
    then claim_refusal s e
    else some (illegal s e)

pub step-refusal :
    (s : HostRolloutState) (e : Event) (now : Time) (policy : RolloutPolicy)
    → refusal (step s e now policy) ≡ due_refusal s e
unfolding step dispatch due_refusal
step-refusal s e now policy = ground (arith, handle_in-refusal s.state s e now policy)

abbrev pub IsTerminal : HostRolloutState → Type 0
IsTerminal s = (s.state ≡ converged) ⊎ (s.state ≡ reverted)

legal_of_IsTerminal :
    (h : HostState) (e : Event) → (h ≡ converged) ⊎ (h ≡ reverted) → legal h e ≡ false
unfolding legal
legal_of_IsTerminal converged e t = refl
legal_of_IsTerminal reverted e t = refl
legal_of_IsTerminal _ e t = ground arith

absorb_of_IsTerminal :
    (policy : RolloutPolicy) (s : HostRolloutState) (e : Event) (now : Time)
    → IsTerminal s
    → absorb policy s e now ≡ (s, [])
unfolding absorb
absorb_of_IsTerminal policy s e now h = elim (Result-cases (step s e now policy)) [
  | inl (r, accepted) ↦
      let no_edge = legal_of_IsTerminal s.state e h in
      let refused = handle_in-refusal s.state s e now policy in
      let handled = (step_accepted s e now policy accepted).1 in
      ground (arith, no_edge, handled, refused)
  | inr (x, refused) ↦ rw (refused, absorb)
]

-- Whatever events arrive at a converged or reverted record, the record stays as it is, and no effect
-- is caused.
pub run_of_IsTerminal :
    (policy : RolloutPolicy) (s : HostRolloutState) (es : List (Event × Time))
    → IsTerminal s
    → run policy s es ≡ (s, [])
unfolding run
run_of_IsTerminal policy s [] h = refl
run_of_IsTerminal policy s ((e, now) ∷ es) h =
    rw (absorb_of_IsTerminal policy s e now h) (rw (run_of_IsTerminal policy s es h))
