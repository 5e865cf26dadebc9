-- ===== src/Planner/Gates/ComplianceWave.antt =====
-- crates/nixfleet-reconciler/src/planner_gates/compliance_wave.rs
use nixfleet.Prelude.{
  ℕ, zero, suc, ◌+◌, ◌%◌, ◌^◌, Option, none, some, List, [], ◌∷◌, take, if◌then◌else◌, ltb,
  string_eq,
}
use nixfleet.Prelude.HashMap.{HashMap, get}
use nixfleet.Proto.{rollout_id_eq, HostId, RolloutId, Wave}
use nixfleet.Planner.Types.{FleetState, SignedManifestSet, GateBlock}
use nixfleet.Planner.Gates.WavePromotion.{wave_of}

-- The inner loop: the failures of one wave's hosts. `failing_count` is a usize of 64 bits.
unfoldable pub count_wave : HashMap HostId ℕ → List HostId → ℕ → ℕ
count_wave per_host [] failing_count = failing_count
count_wave per_host (h ∷ hosts) failing_count = count_wave per_host hosts (elim (get per_host h) [
  | none ↦ failing_count
  | some n ↦ if ltb 0 n then (failing_count + n) % 2 ^ 64 else failing_count
])

unfoldable pub count_waves : HashMap HostId ℕ → List Wave → ℕ → ℕ
unfolding count_wave
count_waves per_host [] failing_count = failing_count
count_waves per_host (wave ∷ waves) failing_count =
    count_waves per_host waves (count_wave per_host wave.hosts failing_count)

-- The failures of the hosts in the waves before `host_wave`.
unfoldable pub earlier_failures : FleetState → List Wave → ℕ → RolloutId → Option ℕ
unfolding count_waves
earlier_failures fleet_state waves host_wave rollout_id =
    elim (get fleet_state.outstanding_failing_enforce_probes rollout_id) [
      | none ↦ none
      | some per_host ↦ some (count_waves per_host (take host_wave waves) 0)
    ]

unfoldable pub check_waves : FleetState → List Wave → HostId → RolloutId → Option GateBlock
unfolding wave_of earlier_failures
check_waves fleet_state waves host rollout_id = elim (wave_of waves host) [
  | none ↦ none
  | some zero ↦ none
  | some (suc n) ↦ elim (earlier_failures fleet_state waves (suc n) rollout_id) [
    | none ↦ none
    | some failing_count ↦
        if ltb 0 failing_count
        then some (GateBlock.compliance_wave failing_count (suc n % 2 ^ 32))
        else none
  ]
]

unfoldable pub check : FleetState → SignedManifestSet → HostId → RolloutId → Option GateBlock
unfolding check_waves
check fleet_state manifests host rollout_id = elim (get manifests.fleet.inner.hosts host) [
  | none ↦ none
  | some h ↦ elim (get manifests.fleet.inner.waves h.channel) [
    | none ↦ none
    | some waves ↦ check_waves fleet_state waves host rollout_id
  ]
]
