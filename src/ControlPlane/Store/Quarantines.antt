-- ===== src/ControlPlane/Store/Quarantines.antt =====
-- crates/nixfleet-control-plane/src/db/quarantined_closures.rs
use nixfleet.Prelude.{
  ℕ, List, [], ◌∷◌, ◌++◌, Option, none, some, if◌then◌else◌, ltb, sort_by, string_eq, pair_eq,
  contains,
}
use nixfleet.Prelude.HashMap.{HashMap, get, insert, contains_key, values}
use nixfleet.Proto.{Time, ChannelId, ClosureHash}
use nixfleet.Planner.Types.{QuarantineSet}

pub record QuarantineRow : Type 0 where
  pub channel : ChannelId
  pub closure_hash : ClosureHash
  pub quarantined_at : Time
  pub triggering_event_log_seq : Option ℕ

abbrev pub QuarantineTable : Type 0
QuarantineTable = HashMap (ChannelId × ClosureHash) QuarantineRow

-- `ON CONFLICT(channel, closure_hash) DO NOTHING`
unfoldable pub insert_quarantine :
    QuarantineTable → ChannelId → ClosureHash → Time → Option ℕ → QuarantineTable
unfolding contains_key insert
insert_quarantine table channel closure_hash quarantined_at seq =
    if contains_key table (channel, closure_hash)
    then table
    else insert table (channel, closure_hash)
        (record {
          channel = channel;
          closure_hash = closure_hash;
          quarantined_at = quarantined_at;
          triggering_event_log_seq = seq;
        })

-- `out.entry(channel).or_default().insert(closure_hash)`
abbrev add_closure : QuarantineSet → ChannelId → ClosureHash → QuarantineSet
unfolding get insert contains
add_closure out channel closure_hash = elim (get out channel) [
  | none ↦ insert out channel (closure_hash ∷ [])
  | some closures ↦
      if contains closures closure_hash
      then out
      else insert out channel (closures ++ closure_hash ∷ [])
]

-- The rows are read from the first on; the set has no order.
unfoldable pub collect_quarantines : QuarantineTable → QuarantineSet → QuarantineSet
unfolding add_closure
collect_quarantines [] out = out
collect_quarantines ((_, row) ∷ table) out =
    collect_quarantines table (add_closure out row.channel row.closure_hash)

unfoldable pub active_by_channel : QuarantineTable → QuarantineSet
unfolding collect_quarantines
active_by_channel table = collect_quarantines table []

-- `ORDER BY quarantined_at DESC`
unfoldable pub list_active : QuarantineTable → List QuarantineRow
unfolding sort_by
list_active table =
    sort_by (λ (a b : QuarantineRow). ltb b.quarantined_at a.quarantined_at) (values table)
