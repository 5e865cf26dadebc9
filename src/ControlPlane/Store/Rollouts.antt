-- ===== src/ControlPlane/Store/Rollouts.antt =====
-- crates/nixfleet-control-plane/src/db/rollouts.rs: the table of rollouts. `RolloutRow` has the fields
-- of `RolloutRecord`.
use nixfleet.Prelude.{
  String, ℕ, ◌-◌, ◌*◌, Bool, true, false, not, ◌&&◌, ◌||◌, Option, none, some, List, [], ◌∷◌,
  if◌then◌else◌, ltb, eqb, is_some, filter, sort_by, contains, length, string_eq, map,
}
use nixfleet.Prelude.Display.{is_before}
use nixfleet.Prelude.HashMap.{HashMap, get, insert, contains_key, update, retain}
use nixfleet.Proto.{Time, RolloutId, rollout_id_eq, ChannelId, ChannelRef}
use nixfleet.Host.State.{HostRolloutState}
use nixfleet.Rollout.State.{
  RolloutState, RolloutRecord, opening, terminal, superseded, pruned, as_db_str,
}

abbrev pub RolloutRow : Type 0
RolloutRow = RolloutRecord

abbrev pub RolloutTable : Type 0
RolloutTable = HashMap RolloutId RolloutRecord

-- `INSERT OR IGNORE`
unfoldable pub record_rollout_opened :
    RolloutTable → RolloutId → ChannelId → ChannelRef → Time → Option ℕ → RolloutTable
unfolding contains_key insert
record_rollout_opened table rollout_id channel target_ref opened_at event_log_seq =
    if contains_key table rollout_id
    then table
    else insert table rollout_id (record {
      rollout_id = rollout_id;
      channel = channel;
      target_ref = target_ref;
      state = opening;
      current_wave = 0;
      opened_event_log_seq = event_log_seq;
      last_transition_event_log_seq = event_log_seq;
      opened_at = opened_at;
      terminal_at = none;
      superseded_at = none;
    })

-- The timestamp that a transition sets, chosen by its target.
abbrev stamped : RolloutRecord → RolloutState → Time → RolloutRecord
stamped row terminal at = record row { terminal_at = some at }
stamped row superseded at = record row { superseded_at = some at }
stamped row _ at = row

abbrev pub state_beq : RolloutState → RolloutState → Bool
state_beq a b = string_eq.beq (as_db_str a) (as_db_str b)

-- `UPDATE … WHERE rollout_id = ?1 AND state != ?2`, for one row.
unfoldable pub transitioned : RolloutState → Time → Option ℕ → RolloutRecord → RolloutRecord
unfolding as_db_str
transitioned to at event_log_seq row =
    if state_beq row.state to
    then row
    else record (stamped row to at) { state = to; last_transition_event_log_seq = event_log_seq }

unfoldable pub record_rollout_transition :
    RolloutTable → RolloutId → RolloutState → Time → Option ℕ → RolloutTable
unfolding update transitioned
record_rollout_transition table rollout_id to at event_log_seq =
    update table rollout_id (transitioned to at event_log_seq)

-- `COALESCE(?3, last_transition_event_log_seq)`
abbrev coalesce {ℓ} : {A : Type ℓ} → Option A → Option A → Option A
coalesce none b = b
coalesce (some a) b = some a

-- `UPDATE … WHERE rollout_id = ?1 AND current_wave < ?2`, for one row.
unfoldable pub with_wave : ℕ → Option ℕ → RolloutRecord → RolloutRecord
with_wave wave event_log_seq row =
    if ltb row.current_wave wave
    then record row {
      current_wave = wave;
      last_transition_event_log_seq = coalesce event_log_seq row.last_transition_event_log_seq;
    }
    else row

unfoldable pub set_current_wave : RolloutTable → RolloutId → ℕ → Option ℕ → RolloutTable
unfolding update with_wave
set_current_wave table rollout_id wave event_log_seq =
    update table rollout_id (with_wave wave event_log_seq)

unfoldable pub current_wave : RolloutTable → RolloutId → Option ℕ
unfolding get
current_wave table rollout_id = elim (get table rollout_id) [
  | none ↦ none
  | some row ↦ some row.current_wave
]

-- `Rollouts::state`: a column that holds no state is excluded by the table's check.
unfoldable pub state : RolloutTable → RolloutId → Option RolloutRecord
unfolding get
state table rollout_id = get table rollout_id

pub record ActiveRollout : Type 0 where
  pub rollout_id : RolloutId
  pub channel : ChannelId
  pub current_wave : ℕ
  pub created_at : Time
  pub terminal_at : Option Time

abbrev pub is_listed : Bool → RolloutState → Bool
is_listed exclude_terminal superseded = false
is_listed exclude_terminal pruned = false
is_listed exclude_terminal terminal = not exclude_terminal
is_listed exclude_terminal _ = true

-- `ORDER BY opened_at DESC, rollout_id`
abbrev pub is_newer : RolloutRecord → RolloutRecord → Bool
is_newer a b =
    ltb b.opened_at a.opened_at
    || (eqb a.opened_at b.opened_at && is_before a.rollout_id.text b.rollout_id.text)

abbrev pub active_rollout : RolloutRecord → ActiveRollout
active_rollout row = record {
  rollout_id = row.rollout_id;
  channel = row.channel;
  current_wave = row.current_wave;
  created_at = row.opened_at;
  terminal_at = row.terminal_at;
}

-- The rows in table order, which the statement then sorts.
unfoldable pub listed : Bool → RolloutTable → List RolloutRecord
listed exclude_terminal [] = []
listed exclude_terminal ((_, row) ∷ table) =
    let rest = listed exclude_terminal table in
    if is_listed exclude_terminal row.state then row ∷ rest else rest

unfoldable pub list_filtered : RolloutTable → Bool → List ActiveRollout
unfolding listed sort_by
list_filtered table exclude_terminal =
    map active_rollout (sort_by is_newer (listed exclude_terminal table))

unfoldable pub list_active : RolloutTable → List ActiveRollout
unfolding list_filtered
list_active table = list_filtered table false

unfoldable pub list_in_flight : RolloutTable → List ActiveRollout
unfolding list_filtered
list_in_flight table = list_filtered table true

-- `GateRollouts::into_ui`
unfoldable pub into_ui : List ActiveRollout → List ActiveRollout
unfolding filter
into_ui rollouts = filter (λ (r : ActiveRollout). not (is_some r.terminal_at)) rollouts

abbrev is_finished : RolloutState → Bool
is_finished RolloutState.superseded = true
is_finished RolloutState.terminal = true
is_finished RolloutState.failed = true
is_finished RolloutState.reverted = true
is_finished _ = false

abbrev is_older : Option Time → Time → Bool
is_older none cutoff = false
is_older (some at) cutoff = ltb at cutoff

-- The condition of both `DELETE`s.
unfoldable pub is_expired : Time → RolloutRecord → Bool
is_expired cutoff row =
    is_finished row.state && (is_older row.superseded_at cutoff || is_older row.terminal_at cutoff)

-- `Utc::now() - Duration::hours(max_age_hours)`
abbrev pub retention_cutoff : Time → ℕ → Time
retention_cutoff now max_age_hours = now - max_age_hours * 3600000000000

unfoldable pub expired_ids : Time → RolloutTable → List RolloutId
unfolding is_expired
expired_ids cutoff [] = []
expired_ids cutoff ((rollout_id, row) ∷ table) =
    let rest = expired_ids cutoff table in if is_expired cutoff row then rollout_id ∷ rest else rest

-- The tables after the transaction, and the numbers of rows that it deleted from each.
unfoldable pub prune_finished_rollouts :
    RolloutTable
    → HashMap (RolloutId × String) HostRolloutState
    → Time
    → ℕ
    → (RolloutTable × HashMap (RolloutId × String) HostRolloutState) × (ℕ × ℕ)
unfolding retain expired_ids is_expired contains
prune_finished_rollouts table records now max_age_hours =
    let cutoff = retention_cutoff now max_age_hours in
    let ids = expired_ids cutoff table in
    let kept_records =
      retain (λ (e : (RolloutId × String) × HostRolloutState). not (contains ids (e.0).0))
        records in
    let kept = retain (λ (e : RolloutId × RolloutRecord). not (is_expired cutoff e.1)) table in
    ((kept, kept_records), (length records - length kept_records, length table - length kept))
