-- ===== src/Verify/Tests.antt =====
-- A fleet at the edge of its window under libraries that accept every signature, and the theorems at
-- it.
use nixfleet.Prelude.{ℕ, ◌≡◌, ◌↔◌, refl, String, true, some, none, List, [], ◌∷◌, Any, ok, Result}
use nixfleet.Proto.{FleetResolved, RolloutPolicy, OnHealthFailure, normalize_rollout_policies}
use nixfleet.Planner.Types.{Verified}
use nixfleet.Trust.{TrustedPubkey}
use nixfleet.Verify.Signature.{Library, Readable, Accepts}
use nixfleet.Verify.{
  verify_signed_sidecar, verify_signed_sidecar_iff, verify_artifact, verify_artifact-IsStaged,
  Passes, IsStaged, Used, fleet_sidecar,
}

abbrev zeros : List ℕ
zeros =
    0 ∷ 0 ∷ 0 ∷ 0 ∷ 0 ∷ 0 ∷ 0 ∷ 0 ∷ 0 ∷ 0 ∷ 0 ∷ 0 ∷ 0 ∷ 0 ∷ 0 ∷ 0 ∷ 0 ∷ 0 ∷ 0 ∷ 0 ∷ 0 ∷ 0 ∷ 0 ∷ 0
    ∷ 0 ∷ 0 ∷ 0 ∷ 0 ∷ 0 ∷ 0 ∷ 0 ∷ 0 ∷ []

abbrev sixty_four : List ℕ
sixty_four =
    0 ∷ 0 ∷ 0 ∷ 0 ∷ 0 ∷ 0 ∷ 0 ∷ 0 ∷ 0 ∷ 0 ∷ 0 ∷ 0 ∷ 0 ∷ 0 ∷ 0 ∷ 0 ∷ 0 ∷ 0 ∷ 0 ∷ 0 ∷ 0 ∷ 0 ∷ 0 ∷ 0
    ∷ 0 ∷ 0 ∷ 0 ∷ 0 ∷ 0 ∷ 0 ∷ 0 ∷ 0 ∷ zeros

abbrev library : Library
library = record {
  from_utf8 = λ bytes. ok "{}";
  from_json = λ s. ok tt;
  canonicalize = λ s. ok s;
  base64_decode = λ s. ok zeros;
  EdKey = Unit;
  ed_from_bytes = λ bytes. ok tt;
  verify_strict = λ key canonical signature. true;
  Point = Unit;
  P256Key = Unit;
  P256Signature = Unit;
  point_from_bytes = λ bytes. ok tt;
  from_encoded_point = λ point. ok tt;
  from_slice = λ bytes. none;
  normalize_s = λ sig. none;
  p256_verify = λ key canonical sig. true;
}

abbrev key : TrustedPubkey
key = record { algorithm = "ed25519"; public = "AAAA" }

abbrev at_once : RolloutPolicy
at_once = record {
  strategy = "all-at-once";
  waves = [];
  health_gate = record { systemd_failed_units = none };
  on_health_failure = OnHealthFailure.halt;
}

abbrev fleet : FleetResolved
fleet = record {
  schema_version = 1;
  hosts = [];
  channels = [];
  rollout_policies = ("fast", at_once) ∷ [];
  waves = [];
  edges = [];
  channel_edges = [];
  disruption_budgets = [];
  meta = record {
    schema_version = 1;
    signed_at = some 5;
    ci_commit = none;
    signature_algorithm = none;
  };
}

abbrev parsed : String → Result FleetResolved String
parsed s = ok fleet

abbrev signed_fleet : Verified FleetResolved
signed_fleet = record { inner = fleet; signed_at = 5 }

abbrev normal_fleet : Verified FleetResolved
unfolding normalize_rollout_policies
normal_fleet = record { inner = normalize_rollout_policies fleet; signed_at = 5 }

verify_signed_sidecar_iff_example :
    (verify_signed_sidecar parsed library [] sixty_four (key ∷ []) 60000000015 10 (some 5)
      ≡ ok signed_fleet)
    ↔ ((canonical : String) × (Readable library [] canonical
          × Any (Accepts library canonical sixty_four) (key ∷ []))
        × Passes parsed canonical 60000000015 10 (some 5) signed_fleet)
verify_signed_sidecar_iff_example =
    verify_signed_sidecar_iff parsed library [] sixty_four (key ∷ []) 60000000015 10 (some 5)
      signed_fleet

verify_artifact-IsStaged_example :
    (canonical : String) × (signed : Verified FleetResolved) × Readable library [] canonical
    × Any (Accepts library canonical sixty_four) (key ∷ [])
    × Passes parsed canonical 60000000015 10 (some 5) signed
    × (normal_fleet.signed_at ≡ signed.signed_at)
    × Used signed.inner normal_fleet.inner
    × IsStaged normal_fleet.inner
unfolding verify_artifact
verify_artifact-IsStaged_example =
    verify_artifact-IsStaged parsed library [] sixty_four (key ∷ []) 60000000015 10 (some 5)
      normal_fleet refl
