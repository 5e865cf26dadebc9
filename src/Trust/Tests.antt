-- ===== src/Trust/Tests.antt =====
-- A slot with a successor before its deadline, and a signature at the edge of its window.
use nixfleet.Prelude.{◌+◌, ◌*◌, ◌<◌, ◌≡◌, ◌↔◌, ◌++◌, ◌≤◌, ℕ, List, true, is_some, Any, none, some}
use nixfleet.Trust.{
  KeySlot, TrustedPubkey, Accepts, pushed, active_keys_at, is_rotation_due,
  active_keys_at-is_rotation_due, check_signed_at, fresh, check_signed_at_iff,
}

abbrev old_key : TrustedPubkey
old_key = record { algorithm = "ed25519"; public = "old" }

abbrev new_key : TrustedPubkey
new_key = record { algorithm = "ed25519"; public = "new" }

abbrev slot : KeySlot
slot = record {
  current = some old_key;
  previous = none;
  reject_before = none;
  successor = some new_key;
  retire_at = some 10;
}

active_keys_at-is_rotation_due_example :
    ((k : TrustedPubkey)
      → Any (λ (a : TrustedPubkey). a ≡ k) (active_keys_at slot 5) ↔ Accepts slot 5 k)
    × ((rest : List TrustedPubkey) × (active_keys_at slot 5
          ≡ pushed slot.current ++ (pushed slot.previous ++ rest)))
    × ((deadline : ℕ)
        → (is_rotation_due slot 5 ≡ some deadline)
          ↔ ((slot.retire_at ≡ some deadline) × (is_some slot.successor ≡ true) × (deadline ≤ 5)))
active_keys_at-is_rotation_due_example = active_keys_at-is_rotation_due slot 5

check_signed_at_iff_example :
    (check_signed_at 0 3600 3660999999999 ≡ fresh) ↔ (3660999999999 < 0 + (3600 + 61) * 1000000000)
check_signed_at_iff_example = check_signed_at_iff 0 3600 3660999999999
