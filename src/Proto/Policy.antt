-- ===== src/Proto/Policy.antt =====
-- crates/nixfleet-proto/src/fleet_resolved.rs: selectors and rollout policies.
use nixfleet.Prelude.{
  ℕ, String, ◌≡◌, ◌↔◌, Bool, true, ◌&&◌, Option, List, arith, Eq, string_eq, list_beq, list_beq_iff,
  option_beq, option_beq_iff, bool_beq, bool_beq_iff,
}

-- Recovery action when a host fails its health gate.
pub data OnHealthFailure : Type 0 where
  halt rollback_and_halt : OnHealthFailure

pub record Selector : Type 0 where
  pub tags : List String
  pub tags_any : List String
  pub hosts : List String
  pub channel : Option String
  pub all : Bool

abbrev pub selector_beq : Selector → Selector → Bool
selector_beq a b =
    list_beq a.tags b.tags
    && list_beq a.tags_any b.tags_any
    && list_beq a.hosts b.hosts
    && option_beq a.channel b.channel
    && bool_beq a.all b.all

pub selector_beq_iff : (a b : Selector) → (selector_beq a b ≡ true) ↔ (a ≡ b)
selector_beq_iff a b = ground (
  arith,
  list_beq_iff a.tags b.tags,
  list_beq_iff a.tags_any b.tags_any,
  list_beq_iff a.hosts b.hosts,
  option_beq_iff a.channel b.channel,
  bool_beq_iff a.all b.all,
)

instance abbrev pub selector_eq : Eq Selector
selector_eq = record { beq = selector_beq; beq_iff = selector_beq_iff }

pub record PolicyWave : Type 0 where
  pub selector : Selector
  pub soak_minutes : ℕ

pub record SystemdFailedUnits : Type 0 where
  pub max : ℕ

pub record HealthGate : Type 0 where
  pub systemd_failed_units : Option SystemdFailedUnits

pub record RolloutPolicy : Type 0 where
  pub strategy : String
  pub waves : List PolicyWave
  pub health_gate : HealthGate
  pub on_health_failure : OnHealthFailure
