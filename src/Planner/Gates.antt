-- ===== src/Planner/Gates.antt =====
-- crates/nixfleet-reconciler/src/planner_gates/mod.rs: the gates, in order.
pub mod Quarantine
pub mod ChannelEdges
pub mod WavePromotion
pub mod HostEdges
pub mod DisruptionBudget
pub mod ComplianceWave
pub mod Counted
pub mod Conditions
pub mod Passed
use nixfleet.Prelude.{ℕ, Option, none, some}
use nixfleet.Prelude.HashMap.{HashMap}
use nixfleet.Proto.{HostId, RolloutId, ChannelId, ClosureHash, Selector}
use nixfleet.Planner.Types.{FleetState, SignedManifestSet, QuarantineSet, GateBlock}
use Quarantine
use ChannelEdges
use WavePromotion
use HostEdges
use DisruptionBudget
use ComplianceWave

infixr 30 ◌or_else◌
-- `if let Some(b) = gate { return Some(b); }`, then the rest.
abbrev pub ◌or_else◌ : Option GateBlock → Option GateBlock → Option GateBlock
some b or_else rest = some b
none or_else rest = rest

unfoldable pub evaluate_for_dispatch :
    FleetState
    → SignedManifestSet
    → QuarantineSet
    → RolloutId
    → HostId
    → ClosureHash
    → ChannelId
    → HashMap Selector ℕ
    → Option GateBlock
evaluate_for_dispatch fleet_state manifests quarantines rollout_id host target_closure channel
      tick_dispatched =
    Quarantine.check quarantines channel target_closure
    or_else ChannelEdges.check fleet_state manifests channel
    or_else WavePromotion.check fleet_state manifests host rollout_id
    or_else HostEdges.check fleet_state manifests host rollout_id
    or_else DisruptionBudget.check fleet_state rollout_id host tick_dispatched
    or_else ComplianceWave.check fleet_state manifests host rollout_id
