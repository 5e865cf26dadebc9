-- ===== src/Prelude/Display.antt =====
-- What `format!`, `Vec::sort` and `join` make of numbers and strings.
use Prim.Native.Nat.{ℕ, zero, suc, ◌/◌, ◌%◌, Ordering}
use mathlib.Core.Bool.{Bool, true, false}
use Prim.Native.String.{String, ◌++◌ as append, compare}
use mathlib.Core.List.{List, [], ◌∷◌}
use text.Mathlib.Text.{is_le}
use nixfleet.Prelude.Tests.{if◌then◌else◌, ltb, unwrap_or}
use nixfleet.Prelude.Lists.{get_elem?}

digit : ℕ → String
digit n =
    unwrap_or (get_elem? ("0" ∷ "1" ∷ "2" ∷ "3" ∷ "4" ∷ "5" ∷ "6" ∷ "7" ∷ "8" ∷ "9" ∷ []) n) ""

-- On fuel: a number has fewer decimal digits than its successor counts.
digits : ℕ → ℕ → String → String
unfolding digit
digits zero n rest = rest
digits (suc fuel) n rest =
    let longer = digits fuel (n / 10) (append (digit (n % 10)) rest) in
    if ltb n 10 then append (digit n) rest else longer

-- `Display` of an unsigned integer
unfoldable pub to_string : ℕ → String
unfolding digits
to_string n = digits (suc n) n ""

unfoldable pub insert_sorted : String → List String → List String
insert_sorted s [] = s ∷ []
insert_sorted s (t ∷ ts) = if is_le (compare s t) then s ∷ t ∷ ts else t ∷ insert_sorted s ts

unfoldable pub sort : List String → List String
unfolding insert_sorted
sort [] = []
sort (s ∷ ss) = insert_sorted s (sort ss)

unfoldable pub join : List String → String → String
join [] sep = ""
join (s ∷ []) sep = s
join (s ∷ t ∷ ts) sep = append s (append sep (join (t ∷ ts) sep))

-- `a < b` on strings
abbrev pub is_before : String → String → Bool
is_before a b = elim (compare a b) [ Ordering.lt ↦ true | _ ↦ false ]
