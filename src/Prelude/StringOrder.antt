-- ===== src/Prelude/StringOrder.antt =====
-- The order of strings, as a strict total order.
use Prim.Native.Nat.{ℕ, Ordering, compare as compare_ℕ}
use Prim.Native.Char.{Char, code}
use Prim.Native.String.compare
use Prim.Native.String.{String, then, compare}
use mathlib.Core.Path.{◌≡◌, refl, sym, ◌∙◌, subst}
use mathlib.Core.Logic.{◌≢◌, ◌⊎◌, inl, inr}
use mathlib.Core.Bool.{true, false, not}
use native.Mathlib.Omega.{arith}
use text.Mathlib.Text.{is_le}
use text.Mathlib.TextEquality.{path_by_compare}
use text.Mathlib.TextPositions.{compare_refl}
use nixfleet.Prelude.Tests.{Bool-cases}
use nixfleet.Prelude.Display.{is_before}

gt≢lt : Ordering.gt ≢ Ordering.lt
gt≢lt p = ground arith

lt≢gt : Ordering.lt ≢ Ordering.gt
lt≢gt p = ground arith

eq≢gt : Ordering.eq ≢ Ordering.gt
eq≢gt p = ground arith

lt≢eq : Ordering.lt ≢ Ordering.eq
lt≢eq p = ground arith

pub true≢false : true ≢ false
true≢false p = ground arith

Ordering-cases : (o : Ordering) → (o ≡ Ordering.lt) ⊎ ((o ≡ Ordering.eq) ⊎ (o ≡ Ordering.gt))
Ordering-cases Ordering.lt = inl refl
Ordering-cases Ordering.eq = inr (inl refl)
Ordering-cases Ordering.gt = inr (inr refl)

-- The verdict on two strings follows from those on their heads and on their tails.
then_trans :
    (a b c : ℕ) (x y z : Ordering)
    → (x ≡ Ordering.lt → y ≡ Ordering.lt → z ≡ Ordering.lt)
    → then (compare_ℕ a b) x ≡ Ordering.lt
    → then (compare_ℕ b c) y ≡ Ordering.lt
    → then (compare_ℕ a c) z ≡ Ordering.lt
then_trans a b c x y z h p q = ground arith

cons-cons :
    (c d : Char) (s t : String)
    → compare (String.◌∷◌ c s) (String.◌∷◌ d t) ≡ then (compare_ℕ (code c) (code d)) (compare s t)
cons-cons c d s t = compare.cons-cons c d s t

compare_trans :
    (r s t : String)
    → compare r s ≡ Ordering.lt
    → compare s t ≡ Ordering.lt
    → compare r t ≡ Ordering.lt
compare_trans String.[] String.[] t p q = q
compare_trans String.[] (String.◌∷◌ d s) String.[] p q =
    absurd (gt≢lt (sym (compare.cons-nil d s) ∙ q))
compare_trans String.[] (String.◌∷◌ d s) (String.◌∷◌ e t) p q = compare.nil-cons e t
compare_trans (String.◌∷◌ c r) String.[] t p q = absurd (gt≢lt (sym (compare.cons-nil c r) ∙ p))
compare_trans (String.◌∷◌ c r) (String.◌∷◌ d s) String.[] p q =
    absurd (gt≢lt (sym (compare.cons-nil d s) ∙ q))
compare_trans (String.◌∷◌ c r) (String.◌∷◌ d s) (String.◌∷◌ e t) p q =
    cons-cons c e r t
    ∙ then_trans (code c) (code d) (code e) (compare r s) (compare s t) (compare r t)
        (λ x y. compare_trans r s t x y) (sym (cons-cons c d r s) ∙ p) (sym (cons-cons d e s t) ∙ q)

then_swap :
    (a b : ℕ) (x y : Ordering)
    → (x ≡ Ordering.gt → y ≡ Ordering.lt)
    → then (compare_ℕ a b) x ≡ Ordering.gt
    → then (compare_ℕ b a) y ≡ Ordering.lt
then_swap a b x y h p = ground arith

compare_swap : (s t : String) → compare s t ≡ Ordering.gt → compare t s ≡ Ordering.lt
compare_swap String.[] String.[] p = absurd (eq≢gt (sym compare.nil-nil ∙ p))
compare_swap String.[] (String.◌∷◌ d t) p = absurd (lt≢gt (sym (compare.nil-cons d t) ∙ p))
compare_swap (String.◌∷◌ c s) String.[] p = compare.nil-cons c s
compare_swap (String.◌∷◌ c s) (String.◌∷◌ d t) p =
    cons-cons d c t s
    ∙ then_swap (code c) (code d) (compare s t) (compare t s) (λ q. compare_swap s t q)
        (sym (cons-cons c d s t) ∙ p)

before→lt : (s t : String) → is_before s t ≡ true → compare s t ≡ Ordering.lt
before→lt s t p = ground arith

lt→before : (s t : String) → compare s t ≡ Ordering.lt → is_before s t ≡ true
lt→before s t p = ground arith

pub is_before_trans :
    (r s t : String) → is_before r s ≡ true → is_before s t ≡ true → is_before r t ≡ true
is_before_trans r s t p q = lt→before r t (compare_trans r s t (before→lt r s p) (before→lt s t q))

pub is_before_asym : (s t : String) → is_before s t ≡ true → is_before t s ≡ false
is_before_asym s t p = elim (Bool-cases (is_before t s)) [
  | inl q ↦ absurd (lt≢eq (sym (before→lt s s (is_before_trans s t s p q)) ∙ compare_refl s))
  | inr q ↦ q
]

-- Of two strings neither of which is before the other, each is the other.
pub is_before_total : (s t : String) → is_before s t ≡ false → s ≢ t → is_before t s ≡ true
is_before_total s t p n = elim (Ordering-cases (compare s t)) [
  | inl q ↦ absurd (true≢false (sym (lt→before s t q) ∙ p))
  | inr (inl q) ↦ absurd (n (path_by_compare s t q))
  | inr (inr q) ↦ lt→before t s (compare_swap s t q)
]

-- What is not before one string and before another separates them.
pub is_before_between :
    (s t z : String) → is_before z s ≡ false → is_before z t ≡ true → is_before s t ≡ true
is_before_between s t z p q = elim (Ordering-cases (compare z s)) [
  | inl c ↦ absurd (true≢false (sym (lt→before z s c) ∙ p))
  | inr (inl c) ↦ subst (λ v. is_before v t ≡ true) (path_by_compare z s c) q
  | inr (inr c) ↦ is_before_trans s z t (lt→before s z (compare_swap z s c)) q
]

equal→not_before : (s t : String) → compare s t ≡ Ordering.eq → is_before s t ≡ false
equal→not_before s t p = ground arith

gt→is_before : (s t : String) → compare s t ≡ Ordering.gt → is_before t s ≡ true
gt→is_before s t p = lt→before t s (compare_swap s t p)

pub is_le-compare : (s t : String) → is_le (compare s t) ≡ not (is_before t s)
is_le-compare s t = elim (Ordering-cases (compare s t)) [
  | inl p ↦ rw (p, is_before_asym s t (lt→before s t p)) refl
  | inr (inl p) ↦
      let same =
        subst (λ v. compare t v ≡ Ordering.eq) (sym (path_by_compare s t p)) (compare_refl t) in
      rw (p, equal→not_before t s same) refl
  | inr (inr p) ↦ rw (p, gt→is_before s t p) refl
]
