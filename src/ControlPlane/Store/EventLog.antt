-- ===== src/ControlPlane/Store/EventLog.antt =====
-- crates/nixfleet-control-plane/src/db/event_log.rs: the append-only log. A payload is its JSON value.
use nixfleet.Prelude.{
  ℕ, ◌+◌, String, List, [], ◌∷◌, ◌++◌, Option, some, max, take, filter, option_beq, string_eq,
}
use nixfleet.Proto.{Time}
use nixfleet.ControlPlane.Json.{Json}

pub data EventLogKind : Type 0 where
  agent_event plan_action effect gate_decision verify_outcome manifest_poll rollout_event :
      EventLogKind

unfoldable pub as_db_str : EventLogKind → String
as_db_str agent_event = "agent_event"
as_db_str plan_action = "plan_action"
as_db_str effect = "effect"
as_db_str gate_decision = "gate_decision"
as_db_str verify_outcome = "verify_outcome"
as_db_str manifest_poll = "manifest_poll"
as_db_str rollout_event = "rollout_event"

pub record EventLogEntry : Type 0 where
  pub kind : EventLogKind
  pub ts : Time
  pub host_id : Option String
  pub rollout_id : Option String
  pub payload : Json

pub record EventLogRow : Type 0 where
  pub seq : ℕ
  pub ts : Time
  pub kind : String
  pub host_id : Option String
  pub rollout_id : Option String
  pub payload : Json

-- `MAX(seq)`, or 0
unfoldable pub last_seq : List EventLogRow → ℕ
last_seq [] = 0
last_seq (row ∷ rows) = max row.seq (last_seq rows)

-- The row that an entry becomes: the next number of the table's key.
unfoldable pub append : List EventLogRow → EventLogEntry → List EventLogRow
unfolding last_seq as_db_str
append rows entry =
    rows
    ++ record {
      seq = last_seq rows + 1;
      ts = entry.ts;
      kind = as_db_str entry.kind;
      host_id = entry.host_id;
      rollout_id = entry.rollout_id;
      payload = entry.payload;
    }
      ∷ []

-- The rows are in the order of their numbers.
unfoldable pub query_by_host : List EventLogRow → String → ℕ → List EventLogRow
unfolding filter
query_by_host rows host_id limit =
    take limit (filter (λ (r : EventLogRow). option_beq r.host_id (some host_id)) rows)

unfoldable pub query_by_rollout : List EventLogRow → String → ℕ → List EventLogRow
unfolding filter
query_by_rollout rows rollout_id limit =
    take limit (filter (λ (r : EventLogRow). option_beq r.rollout_id (some rollout_id)) rows)

unfoldable pub query_by_kind : List EventLogRow → EventLogKind → ℕ → List EventLogRow
unfolding filter as_db_str
query_by_kind rows kind limit =
    take limit (filter (λ (r : EventLogRow). string_eq.beq r.kind (as_db_str kind)) rows)
