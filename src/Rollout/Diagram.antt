-- ===== src/Rollout/Diagram.antt =====
-- The diagram of a rollout's states, with the transitions that the handlers of
-- crates/nixfleet-state-machine/src/rollout/transitions/ make (the table of RFC-0008 §3 has fewer), and
-- what a closed rollout keeps.
use nixfleet.Prelude.{◌≡◌, ◌⊎◌, refl, List, [], ◌∷◌, ok, arith}
use nixfleet.Proto.{Time}
use nixfleet.Rollout.State.{
  RolloutState, RolloutRecord, opening, active, converging, terminal, reverted, failed, superseded,
  pruned,
}
use nixfleet.Rollout.Event.{RolloutEvent, RolloutEffect, record_rollout_transition}
use nixfleet.Rollout.Transitions.{
  rollout_step, step_in, opening_step, active_step, converging_step, terminal_step, reverted_step,
  failed_step, superseded_step, pruned_step,
}

infix 40 ◌⇝◌
pub data ◌⇝◌ : RolloutState → RolloutState → Type 0 where
  join : opening ⇝ active
  drain : active ⇝ converging
  resume : converging ⇝ active
  finish_active : active ⇝ terminal
  finish_converging : converging ⇝ terminal
  revert_active : active ⇝ reverted
  revert_converging : converging ⇝ reverted
  fail_active : active ⇝ failed
  fail_converging : converging ⇝ failed
  replace_opening : opening ⇝ superseded
  replace_active : active ⇝ superseded
  replace_converging : converging ⇝ superseded
  replace_terminal : terminal ⇝ superseded
  replace_reverted : reverted ⇝ superseded
  replace_failed : failed ⇝ superseded
  prune_terminal : terminal ⇝ pruned
  prune_reverted : reverted ⇝ pruned
  prune_failed : failed ⇝ pruned
  prune_superseded : superseded ⇝ pruned

pub ruleset rollout_edges = (
  join, drain, resume, finish_active, finish_converging, revert_active, revert_converging,
  fail_active, fail_converging, replace_opening, replace_active, replace_converging,
  replace_terminal, replace_reverted, replace_failed, prune_terminal, prune_reverted, prune_failed,
  prune_superseded,
)

-- The transitions that a list of effects records, in order.
unfoldable pub rollout_recorded : List RolloutEffect → List (RolloutState × RolloutState)
rollout_recorded [] = []
rollout_recorded (record_rollout_transition _ from to _ ∷ fx) = (from, to) ∷ rollout_recorded fx
rollout_recorded (_ ∷ fx) = rollout_recorded fx

step_in-⇝ :
    (h : RolloutState) (r : RolloutRecord) (e : RolloutEvent) (now : Time) {r' : RolloutRecord}
    {fx : List RolloutEffect}
    → r.state ≡ h
    → step_in h r e now ≡ ok (r', fx)
    → ((h ⇝ r'.state) × (rollout_recorded fx ≡ (h, r'.state) ∷ []))
      ⊎ ((r'.state ≡ h) × (rollout_recorded fx ≡ []))
unfolding step_in opening_step active_step converging_step terminal_step reverted_step failed_step
    superseded_step pruned_step rollout_recorded
step_in-⇝ opening r e now q h = grind (arith, rollout_edges)
step_in-⇝ active r e now q h = grind (arith, rollout_edges)
step_in-⇝ converging r e now q h = grind (arith, rollout_edges)
step_in-⇝ terminal r e now q h = grind (arith, rollout_edges)
step_in-⇝ reverted r e now q h = grind (arith, rollout_edges)
step_in-⇝ failed r e now q h = grind (arith, rollout_edges)
step_in-⇝ superseded r e now q h = grind (arith, rollout_edges)
step_in-⇝ pruned r e now q h = grind (arith, rollout_edges)

-- An accepted event either moves the rollout along one edge of the diagram and records exactly that
-- transition, or leaves the state and records none.
pub rollout_step-recorded :
    (r : RolloutRecord) (e : RolloutEvent) (now : Time) {r' : RolloutRecord}
    {fx : List RolloutEffect}
    → rollout_step r e now ≡ ok (r', fx)
    → ((r.state ⇝ r'.state) × (rollout_recorded fx ≡ (r.state, r'.state) ∷ []))
      ⊎ ((r'.state ≡ r.state) × (rollout_recorded fx ≡ []))
unfolding rollout_step
rollout_step-recorded r e now h = step_in-⇝ r.state r e now refl h
