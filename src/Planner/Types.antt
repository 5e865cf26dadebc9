-- ===== src/Planner/Types.antt =====
-- crates/nixfleet-reconciler/src/planner_types.rs, `GateBlock` of planner_gates/mod.rs, and
-- `Verified` of verify.rs.
use nixfleet.Prelude.{ℕ, String, Option, List, append}
use nixfleet.Prelude.HashMap.{HashMap}
use nixfleet.Prelude.Display.{to_string}
use nixfleet.Proto.{
  Time, RolloutId, ChannelId, ChannelRef, HostId, ClosureHash, FleetResolved, RolloutBudget,
  RolloutManifest,
}
use nixfleet.Host.State.{HostRolloutState}

pub record Verified {ℓ} (A : Type ℓ) : Type ℓ where
  pub inner : A
  pub signed_at : Time

pub record SignedManifestSet : Type 0 where
  pub fleet : Verified FleetResolved
  pub rollouts : HashMap ChannelId (Verified RolloutManifest)

pub record RolloutSummary : Type 0 where
  pub rollout_id : RolloutId
  pub channel : ChannelId
  pub target_ref : ChannelRef
  pub opened_at : Time
  pub terminal_at : Option Time
  pub current_wave : ℕ
  pub budgets : List RolloutBudget

pub record FleetState : Type 0 where
  pub host_states : HashMap (RolloutId × HostId) HostRolloutState
  pub rollouts : HashMap RolloutId RolloutSummary
  pub outstanding_failing_enforce_probes : HashMap RolloutId (HashMap HostId ℕ)

-- The set of quarantined closures of a channel is a list without order.
abbrev pub QuarantineSet : Type 0
QuarantineSet = HashMap ChannelId (List ClosureHash)

pub data PlanAction : Type 0 where
  open_rollout :
      (rollout_id : RolloutId) (channel : ChannelId) (target_ref : ChannelRef) → PlanAction
  queue_dispatch :
      (host : HostId) (rollout : RolloutId) (target_closure : ClosureHash) (soak_due_at : Time)
      → PlanAction
  record_halt_lifted : (channel : ChannelId) → PlanAction
  defer_dispatch :
      (host : HostId) (rollout : RolloutId) (gate : String) (reason : String) → PlanAction

pub data GateBlock : Type 0 where
  channel_edges : (predecessor_channel : String) → GateBlock
  wave_promotion : (host_wave current_wave : ℕ) → GateBlock
  host_unstaged : (channel : String) → GateBlock
  host_edge : (gating_host : String) → GateBlock
  disruption_budget : (in_flight max : ℕ) (selector_summary : String) → GateBlock
  compliance_wave : (failing_events_count host_wave : ℕ) → GateBlock
  quarantined : (channel : String) (closure_hash : String) → GateBlock

unfoldable pub reason : GateBlock → String
reason (channel_edges predecessor_channel) =
    append "channelEdges predecessor channel '" (append predecessor_channel "' not converged")
reason (wave_promotion host_wave current_wave) =
    append "wave-promotion: host_wave="
      (append (to_string host_wave) (append " > current_wave=" (to_string current_wave)))
reason (host_unstaged channel) = append "wave-promotion: channel '" (
    append channel
      "' declares waves but this host is not assigned to any of them — fix the fleet declaration or the host's tag/wave selector")
reason (host_edge gating_host) =
    append "host-edge: gating host '" (append gating_host "' not yet Converged")
reason (disruption_budget in_flight max selector_summary) = append "disruption-budget: " (
    append (to_string in_flight)
      (append "/" (append (to_string max) (append " in flight (" (append selector_summary ")")))))
reason (compliance_wave failing_events_count host_wave) = append "compliance-wave: " (
    append (to_string failing_events_count)
      (append " outstanding failure(s) on hosts in wave < " (to_string host_wave)))
reason (quarantined channel closure_hash) = append "channel " (
    append channel (
      append " closure " (
        append closure_hash
          " quarantined (sustained probe failures); push a new closure to clear")))

unfoldable pub discriminator : GateBlock → String
discriminator (channel_edges _) = "channel-edges"
discriminator (wave_promotion _ _) = "wave-promotion"
discriminator (host_unstaged _) = "wave-promotion-host-unstaged"
discriminator (host_edge _) = "host-edge"
discriminator (disruption_budget _ _ _) = "disruption-budget"
discriminator (compliance_wave _ _) = "compliance-wave"
discriminator (quarantined _ _) = "quarantine"
