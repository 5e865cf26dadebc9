-- ===== src/Trust.antt =====
-- The rotation of trusted keys and the freshness of a signature: crates/nixfleet-proto/src/trust.rs,
-- crates/nixfleet-reconciler/src/trust_rotation.rs and crates/nixfleet-agent/src/freshness.rs.
mod Tests
use nixfleet.Prelude.{
  ℕ, ◌+◌, ◌-◌, ◌*◌, ◌/◌, ◌<◌, ◌≡◌, ◌⊎◌, ◌↔◌, refl, inl, inr, String, Bool, true, false, Option,
  none, some, List, [], ◌∷◌, ◌++◌, arith, if◌then◌else◌, ltb, Bool-cases, ltb→lt, Option-cases, Any,
  here, there, ap, ◌≤◌, is_some,
}
use mathlib.Core.List.{append_assoc}
use nixfleet.Proto.{Time}

pub record TrustedPubkey : Type 0 where
  pub algorithm : String
  pub public : String

pub record KeySlot : Type 0 where
  pub current : Option TrustedPubkey
  pub previous : Option TrustedPubkey
  pub reject_before : Option Time
  pub successor : Option TrustedPubkey
  pub retire_at : Option Time

-- `if let Some(k) = &slot { keys.push(k.clone()) }`
abbrev pub pushed : Option TrustedPubkey → List TrustedPubkey
pushed none = []
pushed (some k) = k ∷ []

unfoldable pub active_keys : KeySlot → List TrustedPubkey
active_keys slot = pushed slot.current ++ pushed slot.previous

unfoldable pub active_keys_at : KeySlot → Time → List TrustedPubkey
unfolding active_keys
active_keys_at slot now = active_keys slot ++ (elim slot.successor [
  | none ↦ []
  | some k ↦ elim slot.retire_at [
    | none ↦ []
    | some retire_at ↦ if ltb now retire_at then k ∷ [] else []
  ]
])

unfoldable pub is_rotation_due : KeySlot → Time → Option Time
is_rotation_due slot now = elim slot.retire_at [
  | none ↦ none
  | some retire_at ↦ elim slot.successor [
    | none ↦ none
    | some _ ↦ if ltb now retire_at then none else some retire_at
  ]
]

pub record RotateTrustRoot : Type 0 where
  pub which : String
  pub retire_at : Time

pub record TrustConfig : Type 0 where
  pub schema_version : ℕ
  pub ci_release_key : KeySlot
  pub cache_keys : List String
  pub org_root_key : Option KeySlot
  pub root_ca_pem : Option String
  pub issuance_ca_pems : List String

abbrev pub rotation : String → Option Time → List RotateTrustRoot
rotation which none = []
rotation which (some retire_at) = record { which = which; retire_at = retire_at } ∷ []

unfoldable pub check_trust_rotations : TrustConfig → Time → List RotateTrustRoot
unfolding is_rotation_due
check_trust_rotations trust now =
    rotation "ciReleaseKey" (is_rotation_due trust.ci_release_key now) ++ (elim trust.org_root_key [
      | none ↦ []
      | some org_root ↦ rotation "orgRootKey" (is_rotation_due org_root now)
    ])

-- The keys of a slot that are accepted at an instant.
abbrev pub Accepts : KeySlot → Time → TrustedPubkey → Type 0
Accepts slot now k =
    (slot.current ≡ some k)
    ⊎ ((slot.previous ≡ some k)
        ⊎ ((slot.successor ≡ some k)
            × (deadline : Time) × (slot.retire_at ≡ some deadline)
            × (now < deadline)))

some-injective : (a b : TrustedPubkey) → ◌≡◌ {A = Option TrustedPubkey} (some a) (some b) → a ≡ b
some-injective a b q = ground arith

Any-pushed :
    (k : TrustedPubkey) (o : Option TrustedPubkey) (ks : List TrustedPubkey)
    → Any (λ (a : TrustedPubkey). a ≡ k) (pushed o ++ ks)
      ↔ ((o ≡ some k) ⊎ Any (λ (a : TrustedPubkey). a ≡ k) ks)
Any-pushed k none ks = (λ h. inr h, λ h. elim h [ inl q ↦ ground arith | inr t ↦ t ])
Any-pushed k (some a) ks = (
  λ h. elim h [ here p ↦ inl (ap some p) | there t ↦ inr t ],
  λ h. elim h [ inl q ↦ here (some-injective a k q) | inr t ↦ there t ],
)

-- What `active_keys_at` adds to `active_keys`.
next_key : KeySlot → Time → List TrustedPubkey
next_key slot now = elim slot.successor [
  | none ↦ []
  | some k ↦ elim slot.retire_at [
    | none ↦ []
    | some retire_at ↦ if ltb now retire_at then k ∷ [] else []
  ]
]

active_keys_at-next_key :
    (slot : KeySlot) (now : Time)
    → active_keys_at slot now ≡ pushed slot.current ++ (pushed slot.previous ++ next_key slot now)
unfolding active_keys_at active_keys next_key
active_keys_at-next_key slot now = append_assoc (pushed slot.current) _ _

one_of : (a k : TrustedPubkey) → Any (λ (x : TrustedPubkey). x ≡ k) (a ∷ []) ↔ (a ≡ k)
one_of a k = (λ h. elim h [ here p ↦ p | there t ↦ elim t [ ] ], λ p. here p)

next_key_iff :
    (slot : KeySlot) (now : Time) (k : TrustedPubkey)
    → Any (λ (a : TrustedPubkey). a ≡ k) (next_key slot now) ↔ (
        (slot.successor ≡ some k)
        × (deadline : Time) × (slot.retire_at ≡ some deadline)
        × (now < deadline))
unfolding next_key
next_key_iff slot now k = elim (Option-cases slot.successor) [
  | inl p ↦ rw (next_key, p) (λ h. elim h [ ], λ h. ground arith)
  | inr (a, p) ↦ elim (Option-cases slot.retire_at) [
    | inl q ↦ rw (next_key, p, q) (λ h. elim h [ ], λ h. ground arith)
    | inr (d, q) ↦ elim (Bool-cases (ltb now d)) [
      | inl l ↦
          rw (next_key, p, q, l)
            (
              λ h. (ap some ((one_of a k).0 h), d, refl, ltb→lt now d l),
              λ (same, _, _, _). (one_of a k).1 (some-injective a k same),
            )
      | inr l ↦ rw (next_key, p, q, l) (λ h. elim h [ ], λ h. ground arith)
    ]
  ]
]

-- At every instant, a key is among the active keys of a slot exactly if it is the current one, the
-- previous one, or the successor of a slot whose deadline is still to come; the current key comes
-- first and the previous one next. A rotation is due exactly if the slot has a successor and its
-- deadline has come.
pub active_keys_at-is_rotation_due :
    (slot : KeySlot) (now : Time)
    → ((k : TrustedPubkey)
        → Any (λ (a : TrustedPubkey). a ≡ k) (active_keys_at slot now) ↔ Accepts slot now k)
      × ((rest : List TrustedPubkey) × (active_keys_at slot now
            ≡ pushed slot.current ++ (pushed slot.previous ++ rest)))
      × ((deadline : Time)
          → (is_rotation_due slot now ≡ some deadline) ↔ (
              (slot.retire_at ≡ some deadline)
              × (is_some slot.successor ≡ true)
              × (deadline ≤ now)))
unfolding is_rotation_due
active_keys_at-is_rotation_due slot now = (
  λ k. rw (active_keys_at-next_key slot now) (
    λ h. elim ((Any-pushed k slot.current _).0 h) [
      | inl q ↦ inl q
      | inr t ↦ elim ((Any-pushed k slot.previous _).0 t) [
        | inl q ↦ inr (inl q)
        | inr u ↦ inr (inr ((next_key_iff slot now k).0 u))
      ]
    ],
    λ h. (Any-pushed k slot.current _).1 (elim h [
      | inl q ↦ inl q
      | inr t ↦ inr (
          (Any-pushed k slot.previous _).1
            (elim t [ inl q ↦ inl q | inr u ↦ inr ((next_key_iff slot now k).1 u) ]))
    ]),
  ),
  (next_key slot now, active_keys_at-next_key slot now),
  λ deadline. ground arith,
)

abbrev pub clock_skew_slack_secs : ℕ
clock_skew_slack_secs = 60

abbrev second : ℕ
second = 1000000000

pub data FreshnessCheck : Type 0 where
  fresh : FreshnessCheck
  stale : (signed_at : Time) (freshness_window_secs age_secs : ℕ) → FreshnessCheck

-- A negative age counts as 0, which no limit is below either.
unfoldable pub check_signed_at : Time → ℕ → Time → FreshnessCheck
check_signed_at signed_at freshness_window_secs now =
    let age_secs = (now - signed_at) / second in
    let limit = freshness_window_secs + clock_skew_slack_secs in
    if ltb limit age_secs then stale signed_at freshness_window_secs age_secs else fresh

-- A signature is fresh exactly until a whole second has passed after the window and the slack of 60
-- seconds, whatever part of a second the clocks show; a signature from the future is fresh.
pub check_signed_at_iff :
    (signed_at : Time) (freshness_window_secs : ℕ) (now : Time)
    → (check_signed_at signed_at freshness_window_secs now ≡ fresh)
      ↔ (now < signed_at + (freshness_window_secs + 61) * 1000000000)
unfolding check_signed_at
check_signed_at_iff signed_at freshness_window_secs now = ground arith
