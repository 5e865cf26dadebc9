-- ===== src/Planner/Gates/Quarantine.antt =====
-- crates/nixfleet-reconciler/src/planner_gates/quarantine.rs
use nixfleet.Prelude.{Option, none, some, if◌then◌else◌, contains, string_eq}
use nixfleet.Prelude.HashMap.{get}
use nixfleet.Proto.{rollout_id_eq, ChannelId, ClosureHash}
use nixfleet.Planner.Types.{QuarantineSet, GateBlock, quarantined}

unfoldable pub check : QuarantineSet → ChannelId → ClosureHash → Option GateBlock
check quarantines channel target_closure = elim (get quarantines channel) [
  | none ↦ none
  | some set ↦
      if contains set target_closure then some (quarantined channel target_closure) else none
]
