-- ===== src/Rollout/State.antt =====
-- crates/nixfleet-state-machine/src/rollout/state.rs: a rollout's record, and its column's strings.
use nixfleet.Prelude.{
  ℕ, String, ◌≡◌, ◌↔◌, refl, Bool, true, false, Option, none, some, string_eq, if◌then◌else◌, arith,
}
use nixfleet.Proto.{Time, RolloutId, ChannelId, ChannelRef}

pub data RolloutState : Type 0 where
  opening active converging terminal reverted failed superseded pruned : RolloutState

pub RolloutState-discrete : Discrete RolloutState
RolloutState-discrete = hlevel

-- `current_wave` is a u32; the two sequence numbers are i64 that the reducer never reads.
pub record RolloutRecord : Type 0 where
  pub rollout_id : RolloutId
  pub channel : ChannelId
  pub target_ref : ChannelRef
  pub state : RolloutState
  pub current_wave : ℕ
  pub opened_event_log_seq : Option ℕ
  pub last_transition_event_log_seq : Option ℕ
  pub opened_at : Time
  pub terminal_at : Option Time
  pub superseded_at : Option Time

unfoldable pub as_db_str : RolloutState → String
as_db_str opening = "Opening"
as_db_str active = "Active"
as_db_str converging = "Converging"
as_db_str terminal = "Terminal"
as_db_str reverted = "Reverted"
as_db_str failed = "Failed"
as_db_str superseded = "Superseded"
as_db_str pruned = "Pruned"

unfoldable pub from_db_str : String → Option RolloutState
from_db_str s =
    if string_eq.beq s "Opening"
    then some opening
    else if string_eq.beq s "Active"
    then some active
    else if string_eq.beq s "Converging"
    then some converging
    else if string_eq.beq s "Terminal"
    then some terminal
    else if string_eq.beq s "Reverted"
    then some reverted
    else if string_eq.beq s "Failed"
    then some failed
    else if string_eq.beq s "Superseded"
    then some superseded
    else if string_eq.beq s "Pruned"
    then some pruned
    else none

unfoldable pub is_terminal_for_ordering : RolloutState → Bool
is_terminal_for_ordering terminal = true
is_terminal_for_ordering superseded = true
is_terminal_for_ordering _ = false

from_db_str-as_db_str : (h : RolloutState) → from_db_str (as_db_str h) ≡ some h
unfolding from_db_str as_db_str
from_db_str-as_db_str opening = refl
from_db_str-as_db_str active = refl
from_db_str-as_db_str converging = refl
from_db_str-as_db_str terminal = refl
from_db_str-as_db_str reverted = refl
from_db_str-as_db_str failed = refl
from_db_str-as_db_str superseded = refl
from_db_str-as_db_str pruned = refl

as_db_str-from_db_str : (s : String) (h : RolloutState) → from_db_str s ≡ some h → as_db_str h ≡ s
unfolding from_db_str as_db_str
as_db_str-from_db_str s h q = ground (
  arith,
  string_eq.beq_iff s "Opening",
  string_eq.beq_iff s "Active",
  string_eq.beq_iff s "Converging",
  string_eq.beq_iff s "Terminal",
  string_eq.beq_iff s "Reverted",
  string_eq.beq_iff s "Failed",
  string_eq.beq_iff s "Superseded",
  string_eq.beq_iff s "Pruned",
)

-- The column reads back the state that was written, and a string that reads as a state is the one
-- that the state is written as.
pub from_db_str_iff : (s : String) (h : RolloutState) → (from_db_str s ≡ some h) ↔ (as_db_str h ≡ s)
from_db_str_iff s h = (as_db_str-from_db_str s h, λ q. rw q at (from_db_str-as_db_str h))
