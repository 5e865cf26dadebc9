-- ===== src/Proto/Manifest.antt =====
-- crates/nixfleet-proto/src/{rollout_manifest,revocations,bootstrap_nonces}.rs: the signed sidecars.
use nixfleet.Prelude.{ℕ, String, Option, List}
use nixfleet.Proto.Identity.{Time}
use nixfleet.Proto.Policy.{Selector, HealthGate}
use nixfleet.Proto.Fleet.{Meta}

pub record RolloutBudget : Type 0 where
  pub selector : Selector
  pub hosts : List String
  pub max_in_flight : Option ℕ
  pub max_in_flight_pct : Option ℕ

pub record HostWave : Type 0 where
  pub hostname : String
  pub wave_index : ℕ
  pub target_closure : String

pub record RolloutManifest : Type 0 where
  pub schema_version : ℕ
  pub display_name : String
  pub channel : String
  pub channel_ref : String
  pub fleet_resolved_hash : String
  pub host_set : List HostWave
  pub health_gate : HealthGate
  pub disruption_budgets : List RolloutBudget
  pub meta : Meta

pub record RevocationEntry : Type 0 where
  pub hostname : String
  pub not_before : Time
  pub reason : Option String
  pub revoked_by : Option String

pub record Revocations : Type 0 where
  pub schema_version : ℕ
  pub revocations : List RevocationEntry
  pub meta : Meta

pub record BootstrapNonceEntry : Type 0 where
  pub nonce : String
  pub hostname : String
  pub expires_at : Time
  pub minted_at : Option Time
  pub minted_by : Option String

pub record BootstrapNonces : Type 0 where
  pub schema_version : ℕ
  pub bootstrap_nonces : List BootstrapNonceEntry
  pub meta : Meta
