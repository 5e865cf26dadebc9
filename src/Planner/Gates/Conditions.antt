-- ===== src/Planner/Gates/Conditions.antt =====
-- What each gate asks for, as a condition (planner_gates/*.rs).
use nixfleet.Prelude.{
  String, ℕ, zero, suc, ◌%◌, ◌^◌, ◌≡◌, ◌≤◌, ◌<◌, ◌↔◌, ◌⊎◌, inl, inr, refl, true, false, Option,
  none, some, List, [], ◌∷◌, arith, All, contains, string_eq, pair_eq, is_some, Option-cases, take,
  position, unwrap_or,
}
use nixfleet.Prelude.HashMap.{HashMap, get}
use nixfleet.Proto.{
  HostId, RolloutId, ChannelId, ClosureHash, ChannelEdge, Edge, new, rollout_id_eq, Selector,
  RolloutBudget, selector_eq, Wave, RolloutManifest, Host,
}
use nixfleet.Host.State.{HostState, HostRolloutState, deferred, converged}
use nixfleet.Planner.Types.{FleetState, SignedManifestSet, QuarantineSet, RolloutSummary, Verified}
use nixfleet.Planner.Gates.Quarantine
use nixfleet.Planner.Gates.ChannelEdges
use nixfleet.Planner.Gates.ChannelEdges.{predecessor_active}
use nixfleet.Planner.Gates.WavePromotion
use nixfleet.Planner.Gates.WavePromotion.{wave_of, cursor}
use nixfleet.Planner.Gates.HostEdges
use nixfleet.Planner.Gates.HostEdges.{same_channel, ordering_eligible, is_eligible}
use nixfleet.Planner.Gates.DisruptionBudget
use nixfleet.Planner.Gates.DisruptionBudget.{
  total, ticked, is_in_flight, count_hosts, count_rollouts, in_flight_count,
}
use nixfleet.Planner.Gates.ComplianceWave
use nixfleet.Planner.Gates.ComplianceWave.{earlier_failures, count_wave, count_waves}
use nixfleet.Planner.Gates.Counted.{failures_of, count_waves-failures_of, load, total-load}

-- The closures of the channel's quarantine, if it has one.
abbrev pub Unquarantined : ClosureHash → Option (List ClosureHash) → Type 0
Unquarantined closure none = Unit
Unquarantined closure (some set) = contains set closure ≡ false

pub quarantine_iff :
    (q : QuarantineSet) (channel : ChannelId) (closure : ClosureHash)
    → (Quarantine.check q channel closure ≡ none) ↔ Unquarantined closure (get q channel)
unfolding Quarantine.check
quarantine_iff q channel closure = ground arith

-- The rollout's row is there, and the rollout is over.
abbrev pub Over : Option RolloutSummary → Type 0
Over none = ⊥
Over (some r) = is_some r.terminal_at ≡ true

-- A channel with a manifest has finished the rollout that the manifest names.
abbrev pub Finished : FleetState → ChannelId → Option (Verified RolloutManifest) → Type 0
Finished f channel none = Unit
Finished f channel (some m) = Over (get f.rollouts (new channel m.inner.channel_ref))

pub predecessor_iff :
    (f : FleetState) (m : SignedManifestSet) (channel : ChannelId)
    → (predecessor_active f m channel ≡ false) ↔ Finished f channel (get m.rollouts channel)
unfolding predecessor_active
predecessor_iff f m channel = ground arith

pub channel_edges-All :
    (f : FleetState) (m : SignedManifestSet) (channel : ChannelId) (edges : List ChannelEdge)
    → (ChannelEdges.check_edges f m channel edges ≡ none)
      ↔ All
          (λ (e : ChannelEdge). e.gated ≡ channel → Finished f e.gates (get m.rollouts e.gates))
          edges
unfolding ChannelEdges.check_edges
channel_edges-All f m channel [] = (λ h. tt, λ h. refl)
channel_edges-All f m channel (e ∷ edges) = ground (
  arith,
  channel_edges-All f m channel edges,
  predecessor_iff f m e.gates,
  string_eq.beq_iff e.gated channel,
)

-- The first of the waves that names the host, and the cursor of a rollout: 0 if it has no row.
abbrev pub place : List Wave → HostId → Option ℕ
place waves host = position (λ (w : Wave). contains w.hosts host) waves

abbrev pub reached : Option RolloutSummary → ℕ
reached none = 0
reached (some r) = r.current_wave

-- The host's wave, if the channel has waves, is not after the cursor.
abbrev pub Staged : ℕ → Option ℕ → Type 0
Staged current none = ⊥
Staged current (some i) = i % 2 ^ 32 ≤ current

abbrev pub Promoted : FleetState → HostId → RolloutId → Option (List Wave) → Type 0
Promoted f host id none = Unit
Promoted f host id (some []) = Unit
Promoted f host id (some (w ∷ ws)) = Staged (reached (get f.rollouts id)) (place (w ∷ ws) host)

pub waves_iff :
    (f : FleetState) (waves : List Wave) (channel : String) (host : HostId) (id : RolloutId)
    → (WavePromotion.check_declared f waves channel host id ≡ none)
      ↔ Staged (reached (get f.rollouts id)) (place waves host)
unfolding WavePromotion.check_declared wave_of cursor
waves_iff f waves channel host id = ground arith

-- No failure is reported of the hosts of the waves, in the 64 bits of the count.
abbrev pub Unfailing : List Wave → Option (HashMap HostId ℕ) → Type 0
Unfailing waves none = Unit
Unfailing waves (some per_host) = failures_of per_host waves % 2 ^ 64 ≡ 0

-- The hosts of the waves before the host's have no counted failure.
abbrev pub CompliantFrom : FleetState → List Wave → RolloutId → Option ℕ → Type 0
CompliantFrom f waves id none = Unit
CompliantFrom f waves id (some i) =
    0 < i → Unfailing (take i waves) (get f.outstanding_failing_enforce_probes id)

abbrev pub Compliant : FleetState → HostId → RolloutId → Option (List Wave) → Type 0
Compliant f host id none = Unit
Compliant f host id (some waves) = CompliantFrom f waves id (place waves host)

pub compliant_iff :
    (f : FleetState) (waves : List Wave) (host : HostId) (id : RolloutId)
    → (ComplianceWave.check_waves f waves host id ≡ none)
      ↔ CompliantFrom f waves id (place waves host)
unfolding ComplianceWave.check_waves earlier_failures wave_of
compliant_iff f waves host id = elim (Option-cases (place waves host)) [
  | inl k ↦ ground arith
  | inr (zero, k) ↦ ground arith
  | inr (suc n, k) ↦ elim (Option-cases (get f.outstanding_failing_enforce_probes id)) [
    | inl l ↦ ground arith
    | inr (per_host, l) ↦
        ground (arith, count_waves-failures_of per_host (take (suc n) waves) 0 (omega arith))
  ]
]

-- The host has converged, or waits for its reboot, in a rollout where it has a record.
abbrev pub Settled : Option HostRolloutState → Type 0
Settled none = ⊥
Settled (some s) = (s.state ≡ converged) ⊎ (s.state ≡ deferred)

eligible-state : (h : HostState) → (is_eligible h ≡ true) ↔ ((h ≡ converged) ⊎ (h ≡ deferred))
eligible-state h = ground arith

pub ordering_eligible_iff :
    (f : FleetState) (id : RolloutId) (h : HostId)
    → (ordering_eligible f id h ≡ true) ↔ Settled (get f.host_states (id, h))
unfolding ordering_eligible
ordering_eligible_iff f id h = elim (Option-cases (get f.host_states (id, h))) [
  | inl k ↦ ground arith
  | inr (s, k) ↦ ground (arith, eligible-state s.state)
]

-- The fleet puts a host that it knows on the channel.
abbrev pub IsOn : ChannelId → Option Host → Type 0
IsOn channel none = ⊥
IsOn channel (some h) = h.channel ≡ channel

same_channel_iff :
    (m : SignedManifestSet) (gates : HostId) (channel : ChannelId)
    → (same_channel m gates channel ≡ true) ↔ IsOn channel (get m.fleet.inner.hosts gates)
unfolding same_channel
same_channel_iff m gates channel = elim (Option-cases (get m.fleet.inner.hosts gates)) [
  | inl k ↦ ground arith
  | inr (h, k) ↦ ground (arith, string_eq.beq_iff h.channel channel)
]

pub host_edges-All :
    (f : FleetState) (m : SignedManifestSet) (host : HostId) (channel : ChannelId) (id : RolloutId)
    (edges : List Edge)
    → (HostEdges.check_edges f m host channel id edges ≡ none)
      ↔ All
          (λ (e : Edge).
            e.gated ≡ host
            → IsOn channel (get m.fleet.inner.hosts e.gates)
            → Settled (get f.host_states (id, e.gates)))
          edges
unfolding HostEdges.check_edges
host_edges-All f m host channel id [] = (λ h. tt, λ h. refl)
host_edges-All f m host channel id (e ∷ edges) = ground (
  arith,
  host_edges-All f m host channel id edges,
  string_eq.beq_iff e.gated host,
  same_channel_iff m e.gates channel,
  ordering_eligible_iff f id e.gates,
)

-- A maximum that is set is above the number in flight.
abbrev pub Below : ℕ → Option ℕ → Type 0
Below n none = Unit
Below n (some max) = n < max

pub budgets-All :
    (f : FleetState) (host : HostId) (tick : HashMap Selector ℕ) (budgets : List RolloutBudget)
    → (DisruptionBudget.check_budgets f host tick budgets ≡ none)
      ↔ All
          (λ (b : RolloutBudget).
            contains b.hosts host ≡ true
            → Below (load f b.selector (unwrap_or (get tick b.selector) 0)) b.max_in_flight)
          budgets
unfolding DisruptionBudget.check_budgets
budgets-All f host tick [] = (λ h. tt, λ h. refl)
budgets-All f host tick (b ∷ budgets) =
    ground (arith, budgets-All f host tick budgets, total-load f tick b.selector)
