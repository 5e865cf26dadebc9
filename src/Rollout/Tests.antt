-- ===== src/Rollout/Tests.antt =====
-- A rollout of two waves that fails late: the theorems at it.
use nixfleet.Prelude.{◌≡◌, ◌⊎◌, ◌≤◌, ◌↔◌, refl, none, some, List, [], ◌∷◌}
use nixfleet.Proto.{RolloutId}
use nixfleet.Rollout.State.{RolloutRecord, RolloutState, from_db_str, as_db_str, from_db_str_iff}
use nixfleet.Rollout.Event.{RolloutEvent, RolloutEffect}
use nixfleet.Rollout.Transitions.{rollout_step}
use nixfleet.Rollout.Diagram.{◌⇝◌, rollout_recorded, rollout_step-recorded}
use nixfleet.Rollout.Waves.{
  persisted_wave, Announced, rollout_step-current_wave, Stamped, rollout_step-Stamped,
}

abbrev id : RolloutId
id = record { text = "stable@abc" }

abbrev in_first_wave : RolloutRecord
in_first_wave = record {
  rollout_id = id;
  channel = "stable";
  target_ref = "abc";
  state = RolloutState.converging;
  current_wave = 0;
  opened_event_log_seq = none;
  last_transition_event_log_seq = none;
  opened_at = 1;
  terminal_at = none;
  superseded_at = none;
}

abbrev advanced : RolloutEvent
advanced = RolloutEvent.wave_advanced id 0 1 5

abbrev in_second_wave : RolloutRecord
in_second_wave = record in_first_wave { state = RolloutState.active; current_wave = 1 }

abbrev effects : List RolloutEffect
effects =
    RolloutEffect.record_rollout_transition id RolloutState.converging RolloutState.active 5
    ∷ RolloutEffect.update_current_wave id 1
    ∷ []

rollout_step-recorded_example :
    ((RolloutState.converging ⇝ RolloutState.active)
      × (rollout_recorded effects ≡ (RolloutState.converging, RolloutState.active) ∷ []))
    ⊎ ((RolloutState.active ≡ RolloutState.converging) × (rollout_recorded effects ≡ []))
unfolding rollout_step nixfleet.Rollout.Transitions.converging_step
rollout_step-recorded_example =
    rollout_step-recorded in_first_wave advanced 5 {r' = in_second_wave} {fx = effects} refl

rollout_step-current_wave_example :
    (0 ≤ 1)
    × (persisted_wave 0 effects ≡ in_second_wave.current_wave)
    × ((in_second_wave.current_wave ≡ in_first_wave.current_wave) ⊎ Announced advanced 1)
unfolding rollout_step nixfleet.Rollout.Transitions.converging_step
rollout_step-current_wave_example =
    rollout_step-current_wave in_first_wave advanced 5 {r' = in_second_wave} {fx = effects} refl

rollout_step-Stamped_example : Stamped RolloutState.active in_second_wave
unfolding rollout_step nixfleet.Rollout.Transitions.converging_step
rollout_step-Stamped_example =
    rollout_step-Stamped in_first_wave advanced 5 {r' = in_second_wave} {fx = effects} (refl, refl)
      refl

from_db_str_iff_example :
    (from_db_str "Superseded" ≡ some RolloutState.superseded)
    ↔ (as_db_str RolloutState.superseded ≡ "Superseded")
from_db_str_iff_example = from_db_str_iff "Superseded" RolloutState.superseded
