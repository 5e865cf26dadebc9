-- ===== src/ControlPlane/Json.antt =====
-- `serde_json::Value`, as the payloads of the event log use it. The fields of an object are in the
-- order that the program writes them in.
use nixfleet.Prelude.{ℕ, String, List, [], ◌∷◌, Option, none, some}
use nixfleet.Prelude.Int.{ℤ}

mutual
  pub data Json : Type 0 where
    null : Json
    number : ℕ → Json
    integer : ℤ → Json
    string : String → Json
    array : Items → Json
    object : Fields → Json

  pub data Items : Type 0 where
    nil : Items
    cons : Json → Items → Items

  pub data Fields : Type 0 where
    end : Fields
    field : String → Json → Fields → Fields

abbrev pub fields : List (String × Json) → Fields
fields [] = end
fields ((key, value) ∷ rest) = field key value (fields rest)

-- `json!({ … })`
abbrev pub json : List (String × Json) → Json
json entries = object (fields entries)

-- `iter().map(f).collect::<Vec<_>>()`
unfoldable pub items {ℓ} : {A : Type ℓ} → (A → Json) → List A → Items
items f [] = nil
items f (x ∷ xs) = cons (f x) (items f xs)

-- `null` for an option that is absent.
abbrev pub nullable {ℓ} : {A : Type ℓ} → (A → Json) → Option A → Json
nullable f none = null
nullable f (some a) = f a
