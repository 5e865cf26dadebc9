-- ===== src/Projection/Tests.antt =====
-- A fleet of two hosts on one channel, whose map gives them in either order.
use mathlib.Core.List.{Permᴰ, Nodup, Pairwise, not-mem-nil, eq-or-mem_of_mem-cons}
use mathlib.Core.Logic.Or
use mathlib.Core.HLevel.{⊥_prop}
use nixfleet.Prelude.StringOrder.{true≢false}
use nixfleet.Prelude.{
  ◌≡◌, ◌≢◌, ◌↔◌, ◌∙◌, refl, sym, String, true, some, none, is_some, List, [], ◌∷◌, any, ok, err,
  Option, Result, string_eq, append, unwrap_or,
}
use nixfleet.Prelude.HashMap.{get}
use nixfleet.Proto.{
  FleetResolved, RolloutPolicy, OnHealthFailure, Host, HostWave, Channel, RolloutManifest,
}
use nixfleet.Projection.{project_manifest, compute_rollout_id_for_channel, current_rollout_ids}
use nixfleet.Projection.Order.{project_manifest-Perm}
use nixfleet.Projection.Ids.{is_target, compute_rollout_id_for_channel_iff}

abbrev host : Host
host = record {
  system = "x86_64-linux";
  tags = [];
  channel = "stable";
  closure_hash = some "c1";
  pubkey = none;
  pin = none;
}

abbrev policy : RolloutPolicy
policy = record {
  strategy = "all-at-once";
  waves = [];
  health_gate = record { systemd_failed_units = none };
  on_health_failure = OnHealthFailure.halt;
}

abbrev stable : Channel
stable = record {
  rollout_policy = "fast";
  reconcile_interval_minutes = 5;
  freshness_window = 60;
  signing_interval_minutes = 30;
}

abbrev fleet : FleetResolved
fleet = record {
  schema_version = 1;
  hosts = ("web", host) ∷ ("db", host) ∷ [];
  channels = ("stable", stable) ∷ ("edge", stable) ∷ [];
  rollout_policies = ("fast", policy) ∷ [];
  waves =
      (
        "stable",
        record { hosts = "db" ∷ []; soak_minutes = 1 }
            ∷ record { hosts = "web" ∷ []; soak_minutes = 1 }
            ∷ [],
      )
      ∷ [];
  edges = [];
  channel_edges = [];
  disruption_budgets = [];
  meta = record {
    schema_version = 1;
    signed_at = some 5;
    ci_commit = some "0123456789";
    signature_algorithm = none;
  };
}

current_rollout_ids_example : current_rollout_ids fleet "hash" ≡ "stable@0123456789" ∷ []
unfolding current_rollout_ids
current_rollout_ids_example = refl

abbrev elim_ok {ℓ κ} : {A : Type ℓ} {E : Type κ} → Result (Option A) E → Option A
elim_ok (ok o) = o
elim_ok (err e) = none

abbrev shown : Option RolloutManifest → String × List HostWave
shown none = ("", [])
shown (some m) = (m.display_name, m.host_set)

shown_example :
    shown (elim_ok (project_manifest fleet "stable" "hash" 5 (some "0123456789") "ed25519")) ≡ (
      "stable@01234567",
      record { hostname = "db"; wave_index = 0; target_closure = "c1" }
          ∷ record { hostname = "web"; wave_index = 1; target_closure = "c1" }
          ∷ [],
    )
unfolding project_manifest
shown_example = refl

web≢db : ◌≢◌ {A = String} "web" "db"
web≢db q = absurd (true≢false (sym ((string_eq.beq_iff "web" "db").1 q)))

two-Nodup : (s t : String) → s ≢ t → Nodup (s ∷ t ∷ [])
two-Nodup s t n =
    Pairwise.cons (λ v m q. Or.elim ⊥_prop (eq-or-mem_of_mem-cons m) (λ e. n (q ∙ e)) not-mem-nil)
      (Pairwise.cons (λ v m. absurd (not-mem-nil m)) Pairwise.nil)

project_manifest-Perm_example :
    project_manifest fleet "stable" "hash" 5 none "ed25519"
    ≡ project_manifest
        (record fleet { hosts = ("db", host) ∷ ("web", host) ∷ [] })
        "stable"
        "hash"
        5
        none
        "ed25519"
project_manifest-Perm_example =
    project_manifest-Perm fleet (("db", host) ∷ ("web", host) ∷ []) "stable" "hash" 5 none "ed25519"
      (Permᴰ.swap refl refl) (two-Nodup "web" "db" web≢db)

compute_rollout_id_for_channel_iff_example :
    (compute_rollout_id_for_channel fleet "hash" "stable" ≡ ok (some "stable@0123456789")) ↔ (
      (is_some fleet.meta.signed_at ≡ true)
      × ((def : Channel) × (get fleet.channels "stable" ≡ some def)
          × (is_some (get fleet.rollout_policies def.rollout_policy) ≡ true))
      × (any (is_target "stable") fleet.hosts ≡ true)
      × ("stable@0123456789" ≡ append "stable" (append "@" (unwrap_or fleet.meta.ci_commit ""))))
compute_rollout_id_for_channel_iff_example =
    compute_rollout_id_for_channel_iff fleet "hash" "stable" "stable@0123456789"
