-- ===== src/Projection.antt =====
-- crates/nixfleet-reconciler/src/manifest.rs: the rollout manifest of a channel, out of the fleet.
pub mod Order
pub mod Ids
mod Tests
use Prim.Native.String.{String}
use nixfleet.Prelude.{
  ◌≡◌, refl, Bool, true, false, not, Option, none, some, List, [], ◌∷◌, append, ℕ, suc, zero, ◌%◌,
  ◌^◌, if◌then◌else◌, string_eq, unwrap_or, is_empty, any, position, sort_by, Result, ok, err,
  arith,
}
use nixfleet.Prelude.HashMap.{HashMap, get}
use nixfleet.Prelude.Display.{sort, is_before}
use nixfleet.Proto.{
  Time, FleetResolved, Host, Wave, Channel, RolloutPolicy, RolloutManifest, HostWave, RolloutBudget,
  DisruptionBudget, Meta, RolloutId,
}
use nixfleet.Proto as Proto

-- `c.chars().take(n).collect()`
unfoldable pub take_chars : ℕ → String → String
take_chars zero s = ""
take_chars (suc n) String.[] = ""
take_chars (suc n) (String.◌∷◌ c s) = String.◌∷◌ c (take_chars n s)

-- The index of the first wave that names the host, as a u32, and 0 if no wave does.
unfoldable pub wave_index_of : Option (List Wave) → String → ℕ
unfolding position any
wave_index_of waves hostname = elim waves [
  | none ↦ 0
  | some ws ↦
      unwrap_or (position (λ (w : Wave). any (λ h. string_eq.beq h hostname) w.hosts) ws) 0 % 2 ^ 32
]

-- The body of the loop over the hosts; `none` where it continues without a push.
unfoldable pub host_wave : Option (List Wave) → String → String → Host → Option HostWave
unfolding wave_index_of
host_wave waves channel hostname host =
    if not (string_eq.beq host.channel channel) then none else elim host.closure_hash [
      | none ↦ none
      | some c ↦ some (record {
        hostname = hostname;
        wave_index = wave_index_of waves hostname;
        target_closure = c;
      })
    ]

unfoldable pub host_waves : Option (List Wave) → String → HashMap String Host → List HostWave
unfolding host_wave
host_waves waves channel [] = []
host_waves waves channel ((hostname, host) ∷ hosts) =
    let rest = host_waves waves channel hosts in
    elim (host_wave waves channel hostname host) [ none ↦ rest | some w ↦ w ∷ rest ]

-- The budgets, with their selectors resolved.
unfoldable pub resolved_budgets : HashMap String Host → List DisruptionBudget → List RolloutBudget
unfolding sort Proto.resolve
resolved_budgets hosts [] = []
resolved_budgets hosts (b ∷ bs) =
    record {
      selector = b.selector;
      hosts = sort (Proto.resolve b.selector hosts);
      max_in_flight = b.max_in_flight;
      max_in_flight_pct = b.max_in_flight_pct;
    }
    ∷ resolved_budgets hosts bs

-- What an error message names.
pub data ProjectionError : Type 0 where
  not_signed : ProjectionError
  missing_channel : String → ProjectionError
  missing_policy : String → String → ProjectionError

abbrev pub hostname_before : HostWave → HostWave → Bool
hostname_before a b = is_before a.hostname b.hostname

unfoldable pub display_name_of : String → Option String → String
unfolding take_chars
display_name_of channel ci_commit =
    append channel (append "@" (elim ci_commit [ none ↦ "unknown" | some c ↦ take_chars 8 c ]))

unfoldable pub project_manifest :
    FleetResolved
    → String
    → String
    → Time
    → Option String
    → String
    → Result (Option RolloutManifest) ProjectionError
unfolding host_waves resolved_budgets display_name_of get sort_by
project_manifest fleet channel fleet_resolved_hash signed_at ci_commit signature_algorithm =
    elim (get fleet.channels channel) [
      | none ↦ err (missing_channel channel)
      | some channel_def ↦ elim (get fleet.rollout_policies channel_def.rollout_policy) [
        | none ↦ err (missing_policy channel_def.rollout_policy channel)
        | some policy ↦
            let host_set = host_waves (get fleet.waves channel) channel fleet.hosts in
            if is_empty host_set
            then ok none
            else ok (
                some (record {
                  schema_version = 1;
                  display_name = display_name_of channel ci_commit;
                  channel = channel;
                  channel_ref = unwrap_or ci_commit "";
                  fleet_resolved_hash = fleet_resolved_hash;
                  host_set = sort_by hostname_before host_set;
                  health_gate = policy.health_gate;
                  disruption_budgets = resolved_budgets fleet.hosts fleet.disruption_budgets;
                  meta = record {
                    schema_version = 1;
                    signed_at = some signed_at;
                    ci_commit = ci_commit;
                    signature_algorithm = some signature_algorithm;
                  };
                }))
      ]
    ]

-- The id as its text.
unfoldable pub compute_rollout_id_for_channel :
    FleetResolved → String → String → Result (Option String) ProjectionError
unfolding project_manifest Proto.new Proto.signature_algorithm_or_default
compute_rollout_id_for_channel fleet fleet_resolved_hash channel = elim fleet.meta.signed_at [
  | none ↦ err not_signed
  | some signed_at ↦
      elim (project_manifest fleet channel fleet_resolved_hash signed_at fleet.meta.ci_commit
        (Proto.signature_algorithm_or_default fleet.meta)) [
          | err e ↦ err e
          | ok none ↦ ok none
          | ok (some manifest) ↦ ok (some (Proto.new manifest.channel manifest.channel_ref).text)
        ]
]

-- The set as a list in the order of the channels; an error is left out.
unfoldable pub channel_ids : FleetResolved → String → HashMap String Channel → List String
unfolding compute_rollout_id_for_channel
channel_ids fleet fleet_resolved_hash [] = []
channel_ids fleet fleet_resolved_hash ((channel, _) ∷ channels) =
    let rest = channel_ids fleet fleet_resolved_hash channels in
    elim (compute_rollout_id_for_channel fleet fleet_resolved_hash channel) [
      | ok (some id) ↦ id ∷ rest
      | _ ↦ rest
    ]

unfoldable pub current_rollout_ids : FleetResolved → String → List String
unfolding channel_ids
current_rollout_ids fleet fleet_resolved_hash = channel_ids fleet fleet_resolved_hash fleet.channels
