-- ===== src/Verify/Signature.antt =====
-- crates/nixfleet-reconciler/src/verify.rs: the search for a trusted key that accepts a signature.
use nixfleet.Prelude.{
  ℕ, ◌≡◌, ◌↔◌, ◌⊎◌, inl, inr, Any, here, there, Bool-cases, refl, sym, subst, ◌∙◌, String, Bool,
  true, false, List, [], ◌∷◌, arith, if◌then◌else◌, append, eqb, Result, bind-ok, ok, err, ◌>>=◌,
  ◌>>◌, any, length, string_eq, Option, none, some, unwrap_or,
}
use nixfleet.Prelude.Display.{to_string}
use nixfleet.Prelude.StringOrder.{true≢false}
use nixfleet.Proto.{Time}
use nixfleet.Trust.{TrustedPubkey}

pub data VerifyError : Type 0 where
  parse : (e : String) → VerifyError
  bad_signature : VerifyError
  not_signed : VerifyError
  stale : (signed_at now : Time) (window : ℕ) → VerifyError
  future_dated : (signed_at now : Time) (slack_secs : ℕ) → VerifyError
  rejected_before_timestamp : (signed_at reject_before : Time) → VerifyError
  schema_version_unsupported : (version : ℕ) → VerifyError
  canonicalize : (e : String) → VerifyError
  unsupported_algorithm : (algorithm : String) → VerifyError
  bad_pubkey_encoding : (algorithm reason : String) → VerifyError
  no_trust_roots : VerifyError

-- What the program calls of `std::str`, `serde_json`, `nixfleet_canonicalize`, `base64`,
-- `ed25519_dalek` and `p256`.
pub record Library : Type 1 where
  pub from_utf8 : List ℕ → Result String String
  pub from_json : String → Result (Unit {0}) String
  pub canonicalize : String → Result String String
  pub base64_decode : String → Result (List ℕ) String
  pub EdKey : Type 0
  pub ed_from_bytes : List ℕ → Result EdKey String
  pub verify_strict : EdKey → String → List ℕ → Bool
  pub Point : Type 0
  pub P256Key : Type 0
  pub P256Signature : Type 0
  pub point_from_bytes : List ℕ → Result Point String
  pub from_encoded_point : Point → Result P256Key String
  pub from_slice : List ℕ → Option P256Signature
  pub normalize_s : P256Signature → Option P256Signature
  pub p256_verify : P256Key → String → P256Signature → Bool

abbrev map_err {ℓ} : {A : Type ℓ} → (String → VerifyError) → Result A String → Result A VerifyError
map_err f (ok a) = ok a
map_err f (err e) = err (f e)

map_err-ok {ℓ} :
    {A : Type ℓ} (f : String → VerifyError) (r : Result A String) (a : A)
    → map_err f r ≡ ok a
    → r ≡ ok a
map_err-ok f r a q = ground arith

abbrev is_ok {ℓ κ} : {A : Type ℓ} {E : Type κ} → Result A E → Bool
is_ok (ok _) = true
is_ok (err _) = false

abbrev signed_by : Bool → Result (Unit {0}) VerifyError
signed_by true = ok tt
signed_by false = err bad_signature

module _ (lib : Library) where
  unfoldable pub verify_ed25519 : String → List ℕ → String → Result (Unit {0}) VerifyError
  verify_ed25519 canonical signature public_b64 =
      map_err (λ e. bad_pubkey_encoding "ed25519" (append "base64 decode failed: " e))
        (lib.base64_decode public_b64)
      >>= λ public_bytes.
          if eqb (length public_bytes) 32
          then (map_err (λ e. bad_pubkey_encoding "ed25519" e) (lib.ed_from_bytes public_bytes)
              >>= λ key.
                  (if eqb (length signature) 64
                    then signed_by (lib.verify_strict key canonical signature)
                    else err bad_signature))
          else err (
              bad_pubkey_encoding "ed25519"
                (append "expected 32 bytes, got " (to_string (length public_bytes))))

  -- The key is `0x04 || X || Y`, and a signature with a high `s` is normalised first.
  unfoldable pub verify_ecdsa_p256 : String → List ℕ → String → Result (Unit {0}) VerifyError
  verify_ecdsa_p256 canonical signature public_b64 =
      map_err (λ e. bad_pubkey_encoding "ecdsa-p256" (append "base64 decode failed: " e))
        (lib.base64_decode public_b64)
      >>= λ public_bytes.
          if eqb (length public_bytes) 64
          then (map_err (λ e. bad_pubkey_encoding "ecdsa-p256" (append "SEC1 decode failed: " e))
                (lib.point_from_bytes (4 ∷ public_bytes))
              >>= λ point.
                  map_err
                    (λ e.
                      bad_pubkey_encoding "ecdsa-p256" (append "not on curve / invalid point: " e))
                    (lib.from_encoded_point point)
                  >>= λ key. elim (lib.from_slice signature) [
                    | none ↦ err bad_signature
                    | some sig ↦
                        signed_by
                          (lib.p256_verify key canonical (unwrap_or (lib.normalize_s sig) sig))
                  ])
          else err (
              bad_pubkey_encoding "ecdsa-p256" (
                append "expected 64 bytes (X ‖ Y uncompressed), got "
                  (to_string (length public_bytes))))

  -- The loop over the keys; `attempted` is `attempted_any_supported`, `first` is `trusted_keys[0]`.
  unfoldable pub try_keys :
      TrustedPubkey → String → List ℕ → Bool → List TrustedPubkey → Result String VerifyError
  unfolding verify_ed25519 verify_ecdsa_p256
  try_keys first canonical signature attempted [] =
      if attempted then err bad_signature else err (unsupported_algorithm first.algorithm)
  try_keys first canonical signature attempted (key ∷ keys) =
      let tried = try_keys first canonical signature true keys in
      let skipped = try_keys first canonical signature attempted keys in
      if string_eq.beq key.algorithm "ed25519"
      then if is_ok (verify_ed25519 canonical signature key.public) then ok canonical else tried
      else if string_eq.beq key.algorithm "ecdsa-p256"
      then if is_ok (verify_ecdsa_p256 canonical signature key.public) then ok canonical else tried
      else skipped

  unfoldable pub verify_signature_against_trust_roots :
      List ℕ → List ℕ → List TrustedPubkey → Result String VerifyError
  unfolding try_keys
  verify_signature_against_trust_roots signed_bytes signature [] = err no_trust_roots
  verify_signature_against_trust_roots signed_bytes signature (first ∷ keys) =
      map_err parse (lib.from_utf8 signed_bytes) >>= λ raw_str.
      map_err parse (lib.from_json raw_str)
      >> (map_err VerifyError.canonicalize (lib.canonicalize raw_str) >>= λ canonical.
          try_keys first canonical signature false (first ∷ keys))

  -- A key accepts a signature: its algorithm is one of the two, and that algorithm verifies it.
  unfoldable pub is_accepted : String → List ℕ → TrustedPubkey → Bool
  is_accepted canonical signature key =
      if string_eq.beq key.algorithm "ed25519"
      then is_ok (verify_ed25519 canonical signature key.public)
      else if string_eq.beq key.algorithm "ecdsa-p256"
      then is_ok (verify_ecdsa_p256 canonical signature key.public)
      else false

  -- A key verifies a signature by ed25519: it is 32 bytes that are a key, the signature is 64 bytes,
  -- and the strict verification accepts it.
  abbrev pub VerifiesEd25519 : String → List ℕ → String → Type 0
  VerifiesEd25519 canonical signature public_b64 =
      (bytes : List ℕ) × (lib.base64_decode public_b64 ≡ ok bytes)
      × (length bytes ≡ 32)
      × (key : lib.EdKey) × (lib.ed_from_bytes bytes ≡ ok key)
      × (length signature ≡ 64)
      × (lib.verify_strict key canonical signature ≡ true)

  -- A key verifies a signature by ECDSA: it is the 64 bytes of a point that is a key, and the
  -- signature, with a low `s`, is accepted.
  abbrev pub VerifiesEcdsaP256 : String → List ℕ → String → Type 0
  VerifiesEcdsaP256 canonical signature public_b64 =
      (bytes : List ℕ) × (lib.base64_decode public_b64 ≡ ok bytes)
      × (length bytes ≡ 64)
      × (point : lib.Point) × (lib.point_from_bytes (4 ∷ bytes) ≡ ok point)
      × (key : lib.P256Key) × (lib.from_encoded_point point ≡ ok key)
      × (sig : lib.P256Signature) × (lib.from_slice signature ≡ some sig)
      × (lib.p256_verify key canonical (unwrap_or (lib.normalize_s sig) sig) ≡ true)

  -- A trusted key accepts a signature by the algorithm that it names.
  abbrev pub Accepts : String → List ℕ → TrustedPubkey → Type 0
  Accepts canonical signature key =
      ((key.algorithm ≡ "ed25519") × VerifiesEd25519 canonical signature key.public)
      ⊎ ((key.algorithm ≡ "ecdsa-p256") × VerifiesEcdsaP256 canonical signature key.public)

  verify_ed25519_iff :
      (canonical : String) (signature : List ℕ) (public_b64 : String)
      → (is_ok (verify_ed25519 canonical signature public_b64) ≡ true)
        ↔ VerifiesEd25519 canonical signature public_b64
  unfolding verify_ed25519
  verify_ed25519_iff canonical signature public_b64 = ground arith

  verify_ecdsa_p256_iff :
      (canonical : String) (signature : List ℕ) (public_b64 : String)
      → (is_ok (verify_ecdsa_p256 canonical signature public_b64) ≡ true)
        ↔ VerifiesEcdsaP256 canonical signature public_b64
  unfolding verify_ecdsa_p256
  verify_ecdsa_p256_iff canonical signature public_b64 = ground arith

  -- The bytes are UTF-8 and JSON, of this canonical form.
  abbrev pub Readable : List ℕ → String → Type 0
  Readable signed_bytes canonical =
      (raw_str : String) × (lib.from_utf8 signed_bytes ≡ ok raw_str)
      × (lib.from_json raw_str ≡ ok tt)
      × (lib.canonicalize raw_str ≡ ok canonical)

  try_keys_iff :
      (first : TrustedPubkey) (canonical : String) (signature : List ℕ) (attempted : Bool)
      (keys : List TrustedPubkey) (c : String)
      → (try_keys first canonical signature attempted keys ≡ ok c)
        ↔ ((c ≡ canonical) × (any (is_accepted canonical signature) keys ≡ true))
  unfolding try_keys is_accepted any
  try_keys_iff first canonical signature attempted [] c = ground arith
  try_keys_iff first canonical signature attempted (key ∷ keys) c = ground (
    arith,
    try_keys_iff first canonical signature true keys c,
    try_keys_iff first canonical signature attempted keys c,
  )

  try_keys-ok :
      (first : TrustedPubkey) (raw canonical c : String) (signature : List ℕ)
      (keys : List TrustedPubkey)
      → try_keys first canonical signature false keys ≡ ok c
      → lib.canonicalize raw ≡ ok canonical
      → (lib.canonicalize raw ≡ ok c) × (any (is_accepted c signature) keys ≡ true)
  try_keys-ok first raw canonical c signature keys q r =
      let (same, accepted) = (try_keys_iff first canonical signature false keys c).0 q in
      subst (λ d. (lib.canonicalize raw ≡ ok d) × (any (is_accepted d signature) keys ≡ true))
        (sym same) (r, accepted)

  pub verify_signature_iff :
      (signed_bytes signature : List ℕ) (keys : List TrustedPubkey) (c : String)
      → (verify_signature_against_trust_roots signed_bytes signature keys ≡ ok c)
        ↔ (Readable signed_bytes c × (any (is_accepted c signature) keys ≡ true))
  unfolding verify_signature_against_trust_roots any
  verify_signature_iff signed_bytes signature [] c = ground arith
  verify_signature_iff signed_bytes signature (first ∷ keys) c = (
    λ q.
        let (raw, q1, q2) = bind-ok (map_err parse (lib.from_utf8 signed_bytes)) _ c q in
        let (_, q3, q4) = bind-ok (map_err parse (lib.from_json raw)) _ c q2 in
        let (canonical, q5, q6) =
          bind-ok (map_err VerifyError.canonicalize (lib.canonicalize raw)) _ c q4 in
        let (canonical_ok, accepted) =
          try_keys-ok first raw canonical c signature (first ∷ keys) q6
            (map_err-ok VerifyError.canonicalize (lib.canonicalize raw) canonical q5) in
        (
          (
            raw,
            map_err-ok parse (lib.from_utf8 signed_bytes) raw q1,
            map_err-ok parse (lib.from_json raw) tt q3,
            canonical_ok,
          ),
          accepted,
        ),
    λ ((raw, q1, q2, q3), accepted).
        rw (q1, q2, q3)
          ((try_keys_iff first c signature false (first ∷ keys) c).1 (refl, accepted)),
  )

  is_accepted_iff :
      (canonical : String) (signature : List ℕ) (key : TrustedPubkey)
      → (is_accepted canonical signature key ≡ true) ↔ Accepts canonical signature key
  unfolding is_accepted
  is_accepted_iff canonical signature key =
      elim (Bool-cases (string_eq.beq key.algorithm "ed25519")) [
        | inl p ↦
            let named = (string_eq.beq_iff key.algorithm "ed25519").0 p in
            rw (is_accepted, p)
              (
                λ h. inl (named, (verify_ed25519_iff canonical signature key.public).0 h),
                λ h. elim h [
                  | inl (_, v) ↦ (verify_ed25519_iff canonical signature key.public).1 v
                  | inr (other, _) ↦ ground (arith, string_eq.beq_iff "ed25519" "ecdsa-p256")
                ],
              )
        | inr p ↦ elim (Bool-cases (string_eq.beq key.algorithm "ecdsa-p256")) [
          | inl q ↦
              let named = (string_eq.beq_iff key.algorithm "ecdsa-p256").0 q in
              rw (is_accepted, p, q)
                (
                  λ h. inr (named, (verify_ecdsa_p256_iff canonical signature key.public).0 h),
                  λ h. elim h [
                    | inl (other, _) ↦ ground (arith, string_eq.beq_iff key.algorithm "ed25519")
                    | inr (_, v) ↦ (verify_ecdsa_p256_iff canonical signature key.public).1 v
                  ],
                )
          | inr q ↦
              rw (is_accepted, p, q)
                (
                  λ h. ground arith,
                  λ h. elim h [
                    | inl (other, _) ↦ ground (arith, string_eq.beq_iff key.algorithm "ed25519")
                    | inr (other, _) ↦ ground (arith, string_eq.beq_iff key.algorithm "ecdsa-p256")
                  ],
                )
        ]
      ]

  pub any_accepted_iff :
      (canonical : String) (signature : List ℕ) (keys : List TrustedPubkey)
      → (any (is_accepted canonical signature) keys ≡ true) ↔ Any (Accepts canonical signature) keys
  unfolding any
  any_accepted_iff canonical signature [] = (λ h. ground arith, λ h. elim h [ ])
  any_accepted_iff canonical signature (key ∷ keys) =
      let rest = any_accepted_iff canonical signature keys in
      let one = is_accepted_iff canonical signature key in
      elim (Bool-cases (is_accepted canonical signature key)) [
        | inl p ↦ rw p (λ h. here (one.0 p), λ h. refl)
        | inr p ↦ rw p (
          λ h. there (rest.0 h),
          λ h. elim h [ here a ↦ absurd (true≢false (sym (one.1 a) ∙ p)) | there t ↦ rest.1 t ],
        )
      ]
