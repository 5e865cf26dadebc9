-- ===== src/Prelude/HashMap.antt =====
-- `std::collections::HashMap` as a list of entries in iteration order. The order is arbitrary in
-- Rust, so a theorem about a loop over a map ranges over every list.
use mathlib.Core.Path.{◌≡◌, refl}
use mathlib.Core.Logic.{◌≢◌}
use mathlib.Core.Bool.{Bool}
use mathlib.Core.Option.{Option, none, some}
use mathlib.Core.List.{List, [], ◌∷◌, ◌++◌, map}
use native.Mathlib.Omega.{arith}
use nixfleet.Prelude.Tests.{if◌then◌else◌, is_some}
use nixfleet.Prelude.Equality.{Eq}

abbrev pub HashMap {ℓ κ} : Type ℓ → Type κ → Type (ℓ ⊔ κ)
HashMap K V = List (K × V)

module _ {ℓ κ} {K : Type ℓ} {V : Type κ} where
  abbrev pub values : HashMap K V → List V
  values m = map (λ (e : K × V). e.1) m

  -- The entries that satisfy the test.
  unfoldable pub retain : (K × V → Bool) → HashMap K V → HashMap K V
  retain p [] = []
  retain p (e ∷ m) = let rest = retain p m in if p e then e ∷ rest else rest

module _ {ℓ κ} {K : Type ℓ} {V : Type κ} ⦃e : Eq K⦄ where
  unfoldable pub get : HashMap K V → K → Option V
  get [] k = none
  get ((j, v) ∷ m) k = if e.beq j k then some v else get m k

  unfoldable pub contains_key : HashMap K V → K → Bool
  contains_key m k = is_some (get m k)

  unfoldable pub insert : HashMap K V → K → V → HashMap K V
  insert [] k v = (k, v) ∷ []
  insert ((j, w) ∷ m) k v = if e.beq j k then (j, v) ∷ m else (j, w) ∷ insert m k v

  -- The value under a key, changed in place.
  unfoldable pub update : HashMap K V → K → (V → V) → HashMap K V
  update [] k f = []
  update ((j, v) ∷ m) k f = if e.beq j k then (j, f v) ∷ m else (j, v) ∷ update m k f

  pub get-update :
      (m : HashMap K V) (k : K) (f : V → V) (j : K)
      → get (update m k f) j
        ≡ (if e.beq k j then elim (get m j) [ none ↦ none | some v ↦ some (f v) ] else get m j)
  unfolding get update
  get-update [] k f j = ground arith
  get-update ((i, w) ∷ m) k f j =
      ground (arith, e.beq_iff k j, e.beq_iff i k, e.beq_iff i j, get-update m k f j)

  pub get-insert :
      (m : HashMap K V) (k j : K) (v : V)
      → get (insert m k v) j ≡ (if e.beq k j then some v else get m j)
  unfolding get insert
  get-insert [] k j v = refl
  get-insert ((i, w) ∷ m) k j v =
      ground (arith, e.beq_iff k j, e.beq_iff i k, e.beq_iff i j, get-insert m k j v)

  pub get-insert_other :
      (m : HashMap K V) (k j : K) (v : V) → j ≢ k → get (insert m k v) j ≡ get m j
  unfolding get insert
  get-insert_other [] k j v d = ground (arith, e.beq_iff k j)
  get-insert_other ((i, w) ∷ m) k j v d =
      ground (arith, e.beq_iff i k, e.beq_iff i j, get-insert_other m k j v d)

  -- A key that is not there is put at the end.
  pub insert-missing :
      (m : HashMap K V) (k : K) (v : V) → get m k ≡ none → insert m k v ≡ m ++ (k, v) ∷ []
  unfolding get insert
  insert-missing [] k v q = refl
  insert-missing ((i, w) ∷ m) k v q = ground (arith, insert-missing m k v)
