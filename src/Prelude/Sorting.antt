-- ===== src/Prelude/Sorting.antt =====
-- Sorting by a key that is a string: the result does not depend on the order at the start.
use Prim.Native.String.{String}
use mathlib.Core.Path.{◌≡◌, refl, sym, ◌∙◌, ap}
use mathlib.Core.Logic.{◌≢◌, inl, inr}
use mathlib.Core.Bool.{Bool}
use mathlib.Core.List.{List, [], ◌∷◌, map, Permᴰ, Nodup, Pairwise, mem-cons_self}
use mathlib.Core.List.Perm
use nixfleet.Prelude.Tests.{Bool-cases}
use nixfleet.Prelude.Equality.{string_eq}
use nixfleet.Prelude.Lists.{insert_by}
use nixfleet.Prelude.Display.{is_before, insert_sorted}
use nixfleet.Prelude.StringOrder.{
  true≢false, is_le-compare, is_before_between, is_before_asym, is_before_total,
}

module _ {ℓ} {A : Type ℓ} (key : A → String) where
  -- The order by the key.
  abbrev pub by_key : A → A → Bool
  by_key a b = is_before (key a) (key b)

  -- Two insertions commute if the keys differ.
  pub insert_by-swap :
      (x y : A) (l : List A)
      → key x ≢ key y
      → insert_by by_key x (insert_by by_key y l) ≡ insert_by by_key y (insert_by by_key x l)
  unfolding insert_by
  insert_by-swap x y [] n = elim (Bool-cases (by_key x y)) [
    | inl p ↦ rw (p, is_before_asym (key x) (key y) p) refl
    | inr p ↦ rw (p, is_before_total (key x) (key y) p n) refl
  ]
  insert_by-swap x y (z ∷ l) n =
      let rest = insert_by-swap x y l n in
      elim (Bool-cases (by_key z x)) [
        | inl p ↦ elim (Bool-cases (by_key z y)) [
          | inl q ↦ rw (p, q, p) (ap (λ t. z ∷ t) rest)
          | inr q ↦ rw (p, q, is_before_between (key y) (key x) (key z) q p, p) refl
        ]
        | inr p ↦ elim (Bool-cases (by_key z y)) [
          | inl q ↦ rw (p, q, is_before_between (key x) (key y) (key z) p q, p) refl
          | inr q ↦ elim (Bool-cases (by_key x y)) [
            | inl r ↦ rw (p, q, r, is_before_asym (key x) (key y) r) refl
            | inr r ↦ rw (p, q, r, is_before_total (key x) (key y) r n, p) refl
          ]
        ]
      ]

-- `sort` is the sort by the string itself.
pub insert_sorted-insert_by :
    (s : String) (l : List String) → insert_sorted s l ≡ insert_by is_before s l
unfolding insert_sorted insert_by
insert_sorted-insert_by s [] = refl
insert_sorted-insert_by s (t ∷ l) =
    let rest = insert_sorted-insert_by s l in
    elim (Bool-cases (is_before t s)) [
      | inl p ↦ rw (is_le-compare s t, p) (ap (λ u. t ∷ u) rest)
      | inr p ↦ rw (is_le-compare s t, p) refl
    ]

-- Two insertions of strings commute.
pub insert_sorted-swap :
    (s t : String) (l : List String)
    → insert_sorted s (insert_sorted t l) ≡ insert_sorted t (insert_sorted s l)
insert_sorted-swap s t l =
    ap (insert_sorted s) (insert_sorted-insert_by t l)
    ∙ insert_sorted-insert_by s (insert_by is_before t l)
    ∙ commuted
    ∙ sym (insert_sorted-insert_by t (insert_by is_before s l))
    ∙ ap (insert_sorted t) (sym (insert_sorted-insert_by s l))
  where
    commuted :
        insert_by is_before s (insert_by is_before t l)
        ≡ insert_by is_before t (insert_by is_before s l)
    commuted = elim (Bool-cases (string_eq.beq s t)) [
      | inl p ↦
          ap (λ v. insert_by is_before v (insert_by is_before t l)) ((string_eq.beq_iff s t).0 p)
          ∙ ap (λ v. insert_by is_before t (insert_by is_before v l))
              (sym ((string_eq.beq_iff s t).0 p))
      | inr p ↦
          insert_by-swap (λ v. v) s t l
            (λ q. absurd (true≢false (sym ((string_eq.beq_iff s t).1 q) ∙ p)))
    ]

-- A loop over a map whose steps commute for different keys gives one result whatever the map's order.
module _ {ℓ κ} {A : Type ℓ} {B : Type κ} (key : A → String) (add : A → B → B) (start : B)
    (add-swap : (a b : A) (l : B) → key a ≢ key b → add a (add b l) ≡ add b (add a l)) where
  unfoldable pub build : List A → B
  build [] = start
  build (a ∷ l) = add a (build l)

  pub build-Perm : (l m : List A) → Permᴰ l m → Nodup (map key l) → build l ≡ build m
  unfolding build
  build-Perm _ _ Permᴰ.nil h = refl
  build-Perm (a ∷ l) (b ∷ m) (Permᴰ.cons e d) (Pairwise.cons _ h) =
      ap (add a) (build-Perm l m d h) ∙ ap (λ v. add v (build m)) e
  build-Perm (a ∷ b ∷ l) (c ∷ d ∷ _) (Permᴰ.swap e f) (Pairwise.cons n _) =
      add-swap a b (build l) (n (key b) mem-cons_self)
      ∙ ap (λ v. add v (add a (build l))) f
      ∙ ap (λ v. add c (add v (build l))) e
  build-Perm l m (Permᴰ.trans {l₂ = k} d e) h =
      build-Perm l k d h ∙ build-Perm k m e (Perm.nodup (Perm.map key ∣ d ∣₁) h)
