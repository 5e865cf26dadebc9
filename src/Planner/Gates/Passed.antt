-- ===== src/Planner/Gates/Passed.antt =====
-- What a dispatch that passes the gates may rely on (planner_gates/*.rs).
use nixfleet.Prelude.{
  unwrap_or, ℕ, ◌≡◌, ◌↔◌, refl, inl, inr, true, Option, none, some, [], ◌∷◌, arith, All, contains,
  string_eq, pair_eq, Option-cases,
}
use nixfleet.Prelude.HashMap.{HashMap, get}
use nixfleet.Proto.{
  HostId, RolloutId, ChannelId, ClosureHash, ChannelEdge, Edge, rollout_id_eq, Selector,
  RolloutBudget, selector_eq, Host,
}
use nixfleet.Planner.Types.{FleetState, SignedManifestSet, QuarantineSet, GateBlock, RolloutSummary}
use nixfleet.Planner.Gates.{evaluate_for_dispatch, ◌or_else◌}
use nixfleet.Planner.Gates.ChannelEdges
use nixfleet.Planner.Gates.ChannelEdges.{predecessor_active}
use nixfleet.Planner.Gates.WavePromotion
use nixfleet.Planner.Gates.WavePromotion.{wave_of, cursor}
use nixfleet.Planner.Gates.HostEdges
use nixfleet.Planner.Gates.DisruptionBudget
use nixfleet.Planner.Gates.DisruptionBudget.{ticked}
use nixfleet.Planner.Gates.Counted.{load}
use nixfleet.Planner.Gates.ComplianceWave
use nixfleet.Planner.Gates.ComplianceWave.{earlier_failures}
use nixfleet.Planner.Gates.Conditions.{
  quarantine_iff, channel_edges-All, waves_iff, compliant_iff, host_edges-All, budgets-All,
  Unquarantined, Finished, Promoted, Compliant, Below, IsOn, Settled,
}

-- What the fleet says of a host that it knows; nothing is asked of a host that it does not know.
abbrev pub OnChannel : Option Host → (ChannelId → Type 0) → Type 0
OnChannel none P = Unit
OnChannel (some h) P = P h.channel

-- The budgets of a rollout that has a row.
abbrev pub Budgets : Option RolloutSummary → (RolloutBudget → Type 0) → Type 0
Budgets none P = Unit
Budgets (some r) P = All P r.budgets

-- A dispatch that no gate holds.
pub record Cleared (f : FleetState) (m : SignedManifestSet) (q : QuarantineSet) (id : RolloutId)
    (host : HostId) (closure : ClosureHash) (channel : ChannelId) (tick : HashMap Selector ℕ)
    : Type 0 where
  pub unquarantined : Unquarantined closure (get q channel)
  pub predecessors :
      All
        (λ (e : ChannelEdge). e.gated ≡ channel → Finished f e.gates (get m.rollouts e.gates))
        m.fleet.inner.channel_edges
  pub promoted :
      OnChannel
        (get m.fleet.inner.hosts host)
        (λ (c : ChannelId). Promoted f host id (get m.fleet.inner.waves c))
  pub edges : OnChannel (get m.fleet.inner.hosts host) (λ (c : ChannelId).
      All
        (λ (e : Edge).
          e.gated ≡ host
          → IsOn c (get m.fleet.inner.hosts e.gates)
          → Settled (get f.host_states (id, e.gates)))
        m.fleet.inner.edges)
  pub budgets : Budgets (get f.rollouts id) (λ (b : RolloutBudget).
      contains b.hosts host ≡ true
      → Below (load f b.selector (unwrap_or (get tick b.selector) 0)) b.max_in_flight)
  pub compliant :
      OnChannel
        (get m.fleet.inner.hosts host)
        (λ (c : ChannelId). Compliant f host id (get m.fleet.inner.waves c))

module _ (f : FleetState) (m : SignedManifestSet) (q : QuarantineSet) (id : RolloutId)
    (host : HostId) (closure : ClosureHash) (channel : ChannelId) (tick : HashMap Selector ℕ) where
  promotion_iff :
      (WavePromotion.check f m host id ≡ none)
      ↔ OnChannel
          (get m.fleet.inner.hosts host)
          (λ (c : ChannelId). Promoted f host id (get m.fleet.inner.waves c))
  unfolding WavePromotion.check
  promotion_iff = elim (Option-cases (get m.fleet.inner.hosts host)) [
    | inl k ↦ ground arith
    | inr (h, k) ↦ elim (Option-cases (get m.fleet.inner.waves h.channel)) [
      | inl l ↦ ground arith
      | inr ([], l) ↦ ground arith
      | inr (w ∷ ws, l) ↦ ground (arith, waves_iff f (w ∷ ws) h.channel host id)
    ]
  ]

  host_edges_iff :
      (HostEdges.check f m host id ≡ none)
      ↔ OnChannel (get m.fleet.inner.hosts host) (λ (c : ChannelId).
        All
          (λ (e : Edge).
            e.gated ≡ host
            → IsOn c (get m.fleet.inner.hosts e.gates)
            → Settled (get f.host_states (id, e.gates)))
          m.fleet.inner.edges)
  unfolding HostEdges.check
  host_edges_iff = elim (Option-cases (get m.fleet.inner.hosts host)) [
    | inl k ↦ ground arith
    | inr (h, k) ↦
        rw (HostEdges.check, k) (host_edges-All f m host h.channel id m.fleet.inner.edges)
  ]

  budgets_iff :
      (DisruptionBudget.check f id host tick ≡ none)
      ↔ Budgets (get f.rollouts id) (λ (b : RolloutBudget).
        contains b.hosts host ≡ true
        → Below (load f b.selector (unwrap_or (get tick b.selector) 0)) b.max_in_flight)
  unfolding DisruptionBudget.check
  budgets_iff = elim (Option-cases (get f.rollouts id)) [
    | inl k ↦ ground arith
    | inr (r, k) ↦ rw (DisruptionBudget.check, k) (budgets-All f host tick r.budgets)
  ]

  compliance_iff :
      (ComplianceWave.check f m host id ≡ none)
      ↔ OnChannel
          (get m.fleet.inner.hosts host)
          (λ (c : ChannelId). Compliant f host id (get m.fleet.inner.waves c))
  unfolding ComplianceWave.check
  compliance_iff = elim (Option-cases (get m.fleet.inner.hosts host)) [
    | inl k ↦ ground arith
    | inr (h, k) ↦ elim (Option-cases (get m.fleet.inner.waves h.channel)) [
      | inl l ↦ ground arith
      | inr (ws, l) ↦ ground (arith, compliant_iff f ws host id)
    ]
  ]

  or_else_none : (a b : Option GateBlock) → (a or_else b ≡ none) ↔ ((a ≡ none) × (b ≡ none))
  or_else_none a b = ground arith

  pub evaluate_for_dispatch_iff :
      (evaluate_for_dispatch f m q id host closure channel tick ≡ none)
      ↔ Cleared f m q id host closure channel tick
  unfolding evaluate_for_dispatch ChannelEdges.check
  evaluate_for_dispatch_iff = (
    λ h. record {
      unquarantined = (quarantine_iff q channel closure).0 (ground arith);
      predecessors = (channel_edges-All f m channel m.fleet.inner.channel_edges).0 (ground arith);
      promoted = promotion_iff.0 (ground arith);
      edges = host_edges_iff.0 (ground arith);
      budgets = budgets_iff.0 (ground arith);
      compliant = compliance_iff.0 (ground arith);
    },
    λ c.
        let q_none = (quarantine_iff q channel closure).1 c.unquarantined in
        let c_none = (channel_edges-All f m channel m.fleet.inner.channel_edges).1 c.predecessors in
        let w_none = promotion_iff.1 c.promoted in
        let e_none = host_edges_iff.1 c.edges in
        let b_none = budgets_iff.1 c.budgets in
        let k_none = compliance_iff.1 c.compliant in
        rw (q_none, c_none, w_none, e_none, b_none, k_none) refl,
  )
