-- ===== src/Rollout/Waves.antt =====
-- The wave cursor and the stamps of a rollout under its reducer (rollout/transitions/*.rs).
use nixfleet.Prelude.{ℕ, ◌≡◌, ◌⊎◌, ◌≤◌, ◌<◌, refl, true, none, List, [], ◌∷◌, ok, arith, is_some}
use nixfleet.Proto.{Time}
use nixfleet.Rollout.State.{
  RolloutState, RolloutRecord, opening, active, converging, terminal, reverted, failed, superseded,
  pruned,
}
use nixfleet.Rollout.Event.{RolloutEvent, RolloutEffect, update_current_wave, wave_advanced}
use nixfleet.Rollout.Transitions.{
  rollout_step, step_in, opening_step, active_step, converging_step, terminal_step, reverted_step,
  failed_step, superseded_step, pruned_step,
}

-- The cursor after the effects are written to the column.
unfoldable pub persisted_wave : ℕ → List RolloutEffect → ℕ
persisted_wave w [] = w
persisted_wave w (update_current_wave _ wave ∷ fx) = persisted_wave wave fx
persisted_wave w (_ ∷ fx) = persisted_wave w fx

-- The wave that an event announces, if it announces a later one than it left.
abbrev pub Announced : RolloutEvent → ℕ → Type 0
Announced (wave_advanced _ from to _) w = (from < to) × (w ≡ to)
Announced _ w = ⊥

step_in-current_wave :
    (h : RolloutState) (r : RolloutRecord) (e : RolloutEvent) (now : Time) {r' : RolloutRecord}
    {fx : List RolloutEffect}
    → step_in h r e now ≡ ok (r', fx)
    → (r.current_wave ≤ r'.current_wave)
      × (persisted_wave r.current_wave fx ≡ r'.current_wave)
      × ((r'.current_wave ≡ r.current_wave) ⊎ Announced e r'.current_wave)
unfolding step_in opening_step active_step converging_step terminal_step reverted_step failed_step
    superseded_step pruned_step persisted_wave
step_in-current_wave opening r e now h = ground arith
step_in-current_wave active r e now h = ground arith
step_in-current_wave converging r e now h = ground arith
step_in-current_wave terminal r e now h = ground arith
step_in-current_wave reverted r e now h = ground arith
step_in-current_wave failed r e now h = ground arith
step_in-current_wave superseded r e now h = ground arith
step_in-current_wave pruned r e now h = ground arith

-- An accepted event never lowers the wave cursor, leaves the column at the new cursor once its effects
-- are written, and changes it only to the wave that a `WaveAdvanced` from an earlier wave announces.
pub rollout_step-current_wave :
    (r : RolloutRecord) (e : RolloutEvent) (now : Time) {r' : RolloutRecord}
    {fx : List RolloutEffect}
    → rollout_step r e now ≡ ok (r', fx)
    → (r.current_wave ≤ r'.current_wave)
      × (persisted_wave r.current_wave fx ≡ r'.current_wave)
      × ((r'.current_wave ≡ r.current_wave) ⊎ Announced e r'.current_wave)
unfolding rollout_step
rollout_step-current_wave r e now h = step_in-current_wave r.state r e now h

-- What a record's stamps say of its state.
abbrev pub Stamped : RolloutState → RolloutRecord → Type 0
Stamped opening r = (r.terminal_at ≡ none) × (r.superseded_at ≡ none)
Stamped active r = (r.terminal_at ≡ none) × (r.superseded_at ≡ none)
Stamped converging r = (r.terminal_at ≡ none) × (r.superseded_at ≡ none)
Stamped terminal r = (is_some r.terminal_at ≡ true) × (r.superseded_at ≡ none)
Stamped reverted r = (r.terminal_at ≡ none) × (r.superseded_at ≡ none)
Stamped failed r = (r.terminal_at ≡ none) × (r.superseded_at ≡ none)
Stamped superseded r = is_some r.superseded_at ≡ true
Stamped pruned r = Unit

step_in-Stamped :
    (h : RolloutState) (r : RolloutRecord) (e : RolloutEvent) (now : Time) {r' : RolloutRecord}
    {fx : List RolloutEffect}
    → r.state ≡ h
    → Stamped h r
    → step_in h r e now ≡ ok (r', fx)
    → Stamped r'.state r'
unfolding step_in opening_step active_step converging_step terminal_step reverted_step failed_step
    superseded_step pruned_step
step_in-Stamped opening r e now q w h = ground arith
step_in-Stamped active r e now q w h = ground arith
step_in-Stamped converging r e now q w h = ground arith
step_in-Stamped terminal r e now q w h = ground arith
step_in-Stamped reverted r e now q w h = ground arith
step_in-Stamped failed r e now q w h = ground arith
step_in-Stamped superseded r e now q w h = ground arith
step_in-Stamped pruned r e now q w h = ground arith

-- Accepted events keep the stamps in step with the state: a terminal rollout has the time at which
-- it finished and none of supersession, a superseded one has the time at which it was replaced, and
-- a rollout that is neither, nor pruned, has neither stamp.
pub rollout_step-Stamped :
    (r : RolloutRecord) (e : RolloutEvent) (now : Time) {r' : RolloutRecord}
    {fx : List RolloutEffect}
    → Stamped r.state r
    → rollout_step r e now ≡ ok (r', fx)
    → Stamped r'.state r'
unfolding rollout_step
rollout_step-Stamped r e now w h = step_in-Stamped r.state r e now refl w h
