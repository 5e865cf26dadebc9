-- ===== src/Verify.antt =====
-- crates/nixfleet-reconciler/src/verify.rs: the gates that a signed file passes before any part of it
-- is read. The cryptography, JSON and UTF-8 are packages that the program calls: `Library` holds what
-- it calls of them, and a failure of theirs is its text.
pub mod Signature
mod Tests
use nixfleet.Prelude.{
  ℕ, ◌+◌, ◌*◌, ◌<◌, ◌≤◌, ◌≡◌, ◌↔◌, ◌⊎◌, inl, inr, refl, String, Bool, true, false, not, Option,
  none, some, List, arith, if◌then◌else◌, ltb, eqb, Result, ok, err, ◌>>=◌, Any, bind-ok, All, ap,
  map, string_eq, is_empty, ◌&&◌, [], ◌∷◌, sym, subst,
}
use nixfleet.Prelude.HashMap.{HashMap}
use nixfleet.Proto.{
  Time, FleetResolved, RolloutManifest, Meta, Revocations, BootstrapNonces,
  normalize_rollout_policies, normalize_policies, normalize_policy, RolloutPolicy,
}
use nixfleet.Planner.Types.{Verified}
use nixfleet.Trust.{TrustedPubkey, clock_skew_slack_secs}
use Signature.{
  Library, VerifyError, parse, not_signed, stale, future_dated, rejected_before_timestamp,
  schema_version_unsupported, verify_signature_against_trust_roots, Readable, Accepts,
  any_accepted_iff, verify_signature_iff,
}

-- What the gates read of a signed file.
pub record SignedSidecar (A : Type 0) : Type 0 where
  pub schema_version : A → ℕ
  pub signed_at : A → Option Time

instance abbrev pub fleet_sidecar : SignedSidecar FleetResolved
fleet_sidecar = record { schema_version = λ f. f.schema_version; signed_at = λ f. f.meta.signed_at }

instance abbrev pub nonces_sidecar : SignedSidecar BootstrapNonces
nonces_sidecar = record {
  schema_version = λ f. f.schema_version;
  signed_at = λ f. f.meta.signed_at;
}

instance abbrev pub revocations_sidecar : SignedSidecar Revocations
revocations_sidecar = record {
  schema_version = λ f. f.schema_version;
  signed_at = λ f. f.meta.signed_at;
}

instance abbrev pub manifest_sidecar : SignedSidecar RolloutManifest
manifest_sidecar = record {
  schema_version = λ f. f.schema_version;
  signed_at = λ f. f.meta.signed_at;
}

abbrev pub accepted_schema_version : ℕ
accepted_schema_version = 1

-- `CLOCK_SKEW_SLACK_SECS` in nanoseconds.
abbrev pub slack : ℕ
slack = clock_skew_slack_secs * 1000000000

module _ {A : Type 0} ⦃s : SignedSidecar A⦄ (from_str : String → Result A String) where
  -- `finish_sidecar_verification`; `now - signed_at` is signed, so each comparison with it is written
  -- as a sum. A window that chrono cannot hold panics in the source.
  unfoldable pub finish_sidecar_verification :
      String → Time → ℕ → Option Time → Result (Verified A) VerifyError
  finish_sidecar_verification canonical now freshness_window reject_before =
      elim (from_str canonical) [
        | err e ↦ err (parse e)
        | ok payload ↦
            if not (eqb (s.schema_version payload) accepted_schema_version)
            then err (schema_version_unsupported (s.schema_version payload))
            else elim (s.signed_at payload) [
              | none ↦ err not_signed
              | some at ↦
                  if elim reject_before [ none ↦ false | some rb ↦ ltb at rb ]
                  then err (
                      rejected_before_timestamp at (elim reject_before [ none ↦ 0 | some rb ↦ rb ]))
                  else if ltb (at + (freshness_window + slack)) now
                  then err (stale at now freshness_window)
                  else if ltb (now + slack) at
                  then err (future_dated at now clock_skew_slack_secs)
                  else ok (record { inner = payload; signed_at = at })
            ]
      ]

  -- `verify_signed_sidecar`, which `verify_revocations`, `verify_bootstrap_nonces` and
  -- `verify_rollout_manifest` are at their types.
  unfoldable pub verify_signed_sidecar :
      Library
      → List ℕ
      → List ℕ
      → List TrustedPubkey
      → Time
      → ℕ
      → Option Time
      → Result (Verified A) VerifyError
  unfolding finish_sidecar_verification verify_signature_against_trust_roots
  verify_signed_sidecar lib signed_bytes signature keys now freshness_window reject_before =
      verify_signature_against_trust_roots lib signed_bytes signature keys >>= λ canonical.
      finish_sidecar_verification canonical now freshness_window reject_before

  -- A payload that was parsed, and the time that it says it was signed at, pass the gates.
  abbrev pub Passes : String → Time → ℕ → Option Time → Verified A → Type 0
  Passes canonical now freshness_window reject_before v =
      (from_str canonical ≡ ok v.inner)
      × (s.schema_version v.inner ≡ 1)
      × (s.signed_at v.inner ≡ some v.signed_at)
      × (elim reject_before [ none ↦ Unit | some rb ↦ rb ≤ v.signed_at ])
      × (now ≤ v.signed_at + freshness_window + 60000000000)
      × (v.signed_at ≤ now + 60000000000)

  finish_sidecar_verification_iff :
      (canonical : String) (now : Time) (window : ℕ) (reject_before : Option Time) (v : Verified A)
      → (finish_sidecar_verification canonical now window reject_before ≡ ok v)
        ↔ Passes canonical now window reject_before v
  unfolding finish_sidecar_verification
  finish_sidecar_verification_iff canonical now window reject_before v = ground arith

  -- A signed file is accepted as a value exactly if its bytes are UTF-8 and JSON with a canonical
  -- form that some trusted key accepts the signature of, by the algorithm that the key names, and
  -- that form parses as the value, of schema version 1, with a time of signing that is not before the
  -- switch for compromised keys, at most the window and a minute old, and at most a minute in the
  -- future. The bytes need not be canonical, and the algorithm that the value names plays no part.
  pub verify_signed_sidecar_iff :
      (lib : Library) (signed_bytes signature : List ℕ) (keys : List TrustedPubkey) (now : Time)
      (window : ℕ) (reject_before : Option Time) (v : Verified A)
      → (verify_signed_sidecar lib signed_bytes signature keys now window reject_before ≡ ok v) ↔ (
          (canonical : String) × (Readable lib signed_bytes canonical
            × Any (Accepts lib canonical signature) keys)
          × Passes canonical now window reject_before v)
  unfolding verify_signed_sidecar
  verify_signed_sidecar_iff lib signed_bytes signature keys now window reject_before v = (
    λ q.
        let (c, q1, q2) =
          bind-ok (verify_signature_against_trust_roots lib signed_bytes signature keys) _ v q in
        let (readable, accepted) = (verify_signature_iff lib signed_bytes signature keys c).0 q1 in
        (
          c,
          (readable, (any_accepted_iff lib c signature keys).0 accepted),
          (finish_sidecar_verification_iff c now window reject_before v).0 q2,
        ),
    λ (c, (readable, accepted), passes).
        rw
          ((verify_signature_iff lib signed_bytes signature keys c).1
            (readable, (any_accepted_iff lib c signature keys).1 accepted))
          ((finish_sidecar_verification_iff c now window reject_before v).1 passes),
  )

-- What `verify_artifact` makes of a verified fleet.
abbrev normalized : Verified FleetResolved → Verified FleetResolved
unfolding normalize_rollout_policies
normalized v = record v { inner = normalize_rollout_policies v.inner }

unfoldable pub verify_artifact :
    (String → Result FleetResolved String)
    → Library
    → List ℕ
    → List ℕ
    → List TrustedPubkey
    → Time
    → ℕ
    → Option Time
    → Result (Verified FleetResolved) VerifyError
unfolding verify_signed_sidecar normalized
verify_artifact from_str lib signed_bytes signature keys now freshness_window reject_before =
    verify_signed_sidecar from_str lib signed_bytes signature keys now freshness_window
      reject_before
    >>= λ v. ok (normalized v)

-- A policy that ships everywhere and yet declares no wave.
abbrev pub is_unstaged : RolloutPolicy → Bool
is_unstaged p = string_eq.beq p.strategy "all-at-once" && is_empty p.waves

-- The policy as it is used: an unstaged one gets one wave, of every host, that soaks for no time; any
-- other is as it was signed.
abbrev pub used : RolloutPolicy → RolloutPolicy
used p =
    if is_unstaged p
    then record p {
      waves =
          record {
            selector = record { tags = []; tags_any = []; hosts = []; channel = none; all = true };
            soak_minutes = 0;
          }
          ∷ [];
    }
    else p

-- The fleet as it is used: its policies are, in order and under their names, those that were signed
-- as they are used, and all else is what was signed.
abbrev pub Used : FleetResolved → FleetResolved → Type 0
Used signed fleet =
    (fleet.schema_version ≡ signed.schema_version)
    × (fleet.hosts ≡ signed.hosts)
    × (fleet.channels ≡ signed.channels)
    × (fleet.rollout_policies
        ≡ map (λ (e : String × RolloutPolicy). (e.0, used e.1)) signed.rollout_policies)
    × (fleet.waves ≡ signed.waves)
    × (fleet.edges ≡ signed.edges)
    × (fleet.channel_edges ≡ signed.channel_edges)
    × (fleet.disruption_budgets ≡ signed.disruption_budgets)
    × (fleet.meta ≡ signed.meta)

normalize_policies-used :
    (policies : HashMap String RolloutPolicy)
    → normalize_policies policies ≡ map (λ (e : String × RolloutPolicy). (e.0, used e.1)) policies
unfolding normalize_policies normalize_policy
normalize_policies-used [] = refl
normalize_policies-used ((name, policy) ∷ policies) =
    ap (λ rest. (name, used policy) ∷ rest) (normalize_policies-used policies)

normalized-Used : (v : Verified FleetResolved) → Used v.inner (normalized v).inner
unfolding normalize_rollout_policies normalized
normalized-Used v = (
  refl,
  refl,
  refl,
  normalize_policies-used v.inner.rollout_policies,
  refl,
  refl,
  refl,
  refl,
  refl,
)

-- Nothing that is used is unstaged.
abbrev pub IsStaged : FleetResolved → Type 0
IsStaged fleet =
    All (λ (e : String × RolloutPolicy). is_unstaged e.1 ≡ false) fleet.rollout_policies

used-staged : (p : RolloutPolicy) → is_unstaged (used p) ≡ false
used-staged p = ground arith

All-used :
    (policies : HashMap String RolloutPolicy)
    → All
        (λ (e : String × RolloutPolicy). is_unstaged e.1 ≡ false)
        (map (λ (e : String × RolloutPolicy). (e.0, used e.1)) policies)
All-used [] = tt
All-used ((name, policy) ∷ policies) = (used-staged policy, All-used policies)

normalized-IsStaged : (v : Verified FleetResolved) → IsStaged (normalized v).inner
normalized-IsStaged v =
    let (_, _, _, q, _, _, _, _, _) = normalized-Used v in
    subst (λ ps. All (λ (e : String × RolloutPolicy). is_unstaged e.1 ≡ false) ps) (sym q)
      (All-used v.inner.rollout_policies)

ok-injective {ℓ κ} :
    {A : Type ℓ} {E : Type κ} (a b : A) → ◌≡◌ {A = Result A E} (ok a) (ok b) → a ≡ b
ok-injective a b q = ground arith

-- A fleet that is accepted is one that passes the gates on its own bytes, in the form that is used:
-- its hosts, channels, waves, edges, channel edges, budgets, version and metadata are those that were
-- signed; a policy that was signed as "all-at-once" without waves has one wave, of every host and
-- with no soak, and every other policy is as it was signed, so that no "all-at-once" policy is
-- without a wave. Its time is the time of signing of the signed fleet.
pub verify_artifact-IsStaged :
    (from_str : String → Result FleetResolved String) (lib : Library)
    (signed_bytes signature : List ℕ) (keys : List TrustedPubkey) (now : Time) (window : ℕ)
    (reject_before : Option Time) (v : Verified FleetResolved)
    → verify_artifact from_str lib signed_bytes signature keys now window reject_before ≡ ok v
    → (canonical : String) × (signed : Verified FleetResolved) × Readable lib signed_bytes canonical
      × Any (Accepts lib canonical signature) keys
      × Passes from_str canonical now window reject_before signed
      × (v.signed_at ≡ signed.signed_at)
      × Used signed.inner v.inner
      × IsStaged v.inner
unfolding verify_artifact normalized
verify_artifact-IsStaged from_str lib bytes signature keys now window reject_before v q =
    let (signed, q1, q2) =
      bind-ok (verify_signed_sidecar from_str lib bytes signature keys now window reject_before) _ v
        q in
    let (c, (readable, accepted), passes) =
      (verify_signed_sidecar_iff from_str lib bytes signature keys now window reject_before
          signed).0
        q1 in
    let same = ok-injective (normalized signed) v q2 in
    (
      c,
      signed,
      readable,
      accepted,
      passes,
      sym (ap (λ (w : Verified FleetResolved). w.signed_at) same),
      subst (λ (w : Verified FleetResolved). Used signed.inner w.inner) same
          (normalized-Used signed),
      subst (λ (w : Verified FleetResolved). IsStaged w.inner) same (normalized-IsStaged signed),
    )
