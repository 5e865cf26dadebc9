-- ===== src/Proto/Identity.antt =====
-- crates/nixfleet-proto/src/lib.rs: `RolloutId`, the composite `"{channel}@{channel_ref}"`.
use Prim.Native.Char.{Char, code}
use Prim.Native.String.append.{nil, cons}
use Prim.Native.String.{◌∷◌ as str_cons}
use nixfleet.Prelude.{
  refl, ℕ, String, ◌≡◌, ◌↔◌, Bool, true, false, Option, none, some, arith, append, eqb, Eq,
  string_eq, if◌then◌else◌,
}

-- A `DateTime<Utc>`, in nanoseconds.
abbrev pub Time : Type 0
Time = ℕ

abbrev pub ChannelRef : Type 0
ChannelRef = String

abbrev pub ChannelId : Type 0
ChannelId = String

abbrev pub ClosureHash : Type 0
ClosureHash = String

abbrev pub HostId : Type 0
HostId = String

pub record RolloutId : Type 0 where
  pub text : String

abbrev pub rollout_id_beq : RolloutId → RolloutId → Bool
rollout_id_beq a b = string_eq.beq a.text b.text

pub rollout_id_beq_iff : (a b : RolloutId) → (rollout_id_beq a b ≡ true) ↔ (a ≡ b)
rollout_id_beq_iff a b = ground (arith, string_eq.beq_iff a.text b.text)

instance abbrev pub rollout_id_eq : Eq RolloutId
rollout_id_eq = record { beq = rollout_id_beq; beq_iff = rollout_id_beq_iff }

-- `format!("{channel}@{channel_ref}")`, as a release build makes it: the `debug_assert!` before it, that
-- the channel has no `@`, is in debug builds only and is `HasNoAt` here.
unfoldable pub new : String → String → RolloutId
new channel channel_ref = record { text = append channel (append "@" channel_ref) }

-- `s.split_once('@')`: the text before and behind the first separator.
split_once : String → Option (String × String)
split_once String.[] = none
split_once (String.◌∷◌ c s) = if eqb (code c) b'@' then some ("", s) else elim (split_once s) [
  | none ↦ none
  | some (before, after) ↦ some (str_cons c before, after)
]

unfoldable pub channel : RolloutId → String
unfolding split_once
channel id = elim (split_once id.text) [ none ↦ id.text | some (c, _) ↦ c ]

unfoldable pub channel_ref : RolloutId → String
unfolding split_once
channel_ref id = elim (split_once id.text) [ none ↦ "" | some (_, r) ↦ r ]

-- The `debug_assert!` of `new`: no character of the channel is the separator.
abbrev pub HasNoAt : String → Type 0
HasNoAt String.[] = Unit
HasNoAt (String.◌∷◌ c s) = (eqb (code c) b'@' ≡ false) × HasNoAt s

nil-append : (s : String) → append "" s ≡ s
nil-append s = λ i. nil s i

cons-append : (c : Char) (s u : String) → append (str_cons c s) u ≡ str_cons c (append s u)
cons-append c s u = λ i. cons c s u i

split_once-new : (c r : String) → HasNoAt c → split_once (append c (append "@" r)) ≡ some (c, r)
unfolding split_once
split_once-new String.[] r h = rw (nil-append, cons-append, nil-append) refl
split_once-new (String.◌∷◌ x c) r (other, h) =
    rw (cons-append x c) (rw (other, split_once-new c r h) refl)

-- A rollout's id, made of a channel without `@` and of any channel ref, gives both back.
pub new-channel : (c r : String) → HasNoAt c → (channel (new c r) ≡ c) × (channel_ref (new c r) ≡ r)
unfolding new channel channel_ref
new-channel c r h = rw (channel, channel_ref, new, split_once-new c r h) (refl, refl)
