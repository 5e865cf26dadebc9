-- ===== src/ControlPlane/History/Listed.antt =====
-- A rollout that is open is among those that the query for open rollouts lists.
use nixfleet.Prelude.{
  ◌≡◌, ◌⊎◌, inl, inr, sym, subst, Bool, true, false, Option, some, List, [], ◌∷◌, arith,
  if◌then◌else◌, Any, here, there, Bool-cases, string_eq, insert_by, sort_by,
}
use nixfleet.Prelude.HashMap.{get}
use nixfleet.Proto.{RolloutId, rollout_id_eq}
use nixfleet.Rollout.State.{RolloutRecord}
use nixfleet.ControlPlane.Store.Rollouts as Rollouts
use nixfleet.ControlPlane.History.{◌then◌}
use nixfleet.ControlPlane.History.Closing.{is_open}

module _ {P : RolloutRecord → Type 0} (before : RolloutRecord → RolloutRecord → Bool) where
  insert_by-here :
      (x : RolloutRecord) (ys : List RolloutRecord) → P x → Any P (insert_by before x ys)
  unfolding insert_by
  insert_by-here x [] p = here p
  insert_by-here x (y ∷ ys) p = elim (Bool-cases (before y x)) [
    | inl q ↦ rw q (there (insert_by-here x ys p))
    | inr q ↦ rw q (here p)
  ]

  insert_by-there :
      (x : RolloutRecord) (ys : List RolloutRecord) → Any P ys → Any P (insert_by before x ys)
  unfolding insert_by
  insert_by-there x [] h = elim h [ ]
  insert_by-there x (y ∷ ys) h = elim (Bool-cases (before y x)) [
    | inr q ↦ rw q (there h)
    | inl q ↦ rw q (elim h [ here p ↦ here p | there later ↦ there (insert_by-there x ys later) ])
  ]

  pub sort_by-Any : (xs : List RolloutRecord) → Any P xs → Any P (sort_by before xs)
  unfolding sort_by
  sort_by-Any [] h = elim h [ ]
  sort_by-Any (x ∷ xs) (here p) = insert_by-here x (sort_by before xs) p
  sort_by-Any (x ∷ xs) (there h) = insert_by-there x (sort_by before xs) (sort_by-Any xs h)

head_or_tail {ℓ} :
    {A : Type ℓ} (b : Bool) (o : Option A) (s r : A)
    → (if b then some s else o) ≡ some r
    → (s ≡ r) ⊎ (o ≡ some r)
head_or_tail b o s r h = ground arith

-- A row that is open is listed.
pub listed-Any :
    (P : RolloutRecord → Type 0) (table : Rollouts.RolloutTable) (j : RolloutId) (r : RolloutRecord)
    → get table j ≡ some r
    → is_open r.state ≡ true
    → P r
    → Any P (Rollouts.listed false table)
unfolding get Rollouts.listed
listed-Any P [] j r found o p = ground arith
listed-Any P ((i, s) ∷ table) j r found o p =
    elim (head_or_tail (rollout_id_eq.beq i j) (get table j) s r found) [
      | inl same ↦
          rw (subst (λ (x : RolloutRecord). is_open x.state ≡ true) (sym same) o)
            (here (subst P (sym same) p))
      | inr later ↦ elim (Bool-cases (is_open s.state)) [
        | inl q ↦ rw q (there (listed-Any P table j r later o p))
        | inr q ↦ rw q (listed-Any P table j r later o p)
      ]
    ]
