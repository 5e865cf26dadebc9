-- ===== src/ControlPlane/History.antt =====
-- What becomes of the control plane's tables in time: the relation between the tables before and after
-- an operation, and its laws.
pub mod Transitions
pub mod Applied
pub mod Inputs
pub mod Kept
pub mod HostRecords
pub mod Redelivery
pub mod Elsewhere
pub mod Recovered
pub mod Ended
pub mod Terminal
pub mod Quarantine
pub mod Closing
pub mod Listed
pub mod Supersession
mod Tests
use nixfleet.Prelude.{
  ℕ, ◌≡◌, ◌≤◌, refl, sym, ap, subst, ◌∙◌, Option, none, some, List, [], ◌∷◌, ◌++◌, arith, Bool,
  if◌then◌else◌,
}
use mathlib.Core.List.{append_assoc}
use nixfleet.Prelude.HashMap.{get}
use nixfleet.Proto.{RolloutId, rollout_id_eq}
use nixfleet.Rollout.State.{RolloutState, RolloutRecord}
use nixfleet.Rollout.Diagram.{◌⇝◌}
use nixfleet.ControlPlane.Store.{Db}

-- Any number of edges of the diagram of a rollout's states.
infix 40 ◌⇝*◌
infixr 45 ◌then◌
pub data ◌⇝*◌ : RolloutState → RolloutState → Type 0 where
  stay : {a : RolloutState} → a ⇝* a
  ◌then◌ : {a b c : RolloutState} → a ⇝ b → b ⇝* c → a ⇝* c

⇝*-trans : {a b c : RolloutState} → a ⇝* b → b ⇝* c → a ⇝* c
⇝*-trans stay q = q
⇝*-trans (e then p) q = e then ⇝*-trans p q

-- A row after another of the same rollout: the state has moved along the diagram, the wave cursor has
-- not gone back, and what was written when the rollout opened is as it was.
pub record Follows (r s : RolloutRecord) : Type 0 where
  pub path : r.state ⇝* s.state
  pub wave : r.current_wave ≤ s.current_wave
  pub rollout_id : s.rollout_id ≡ r.rollout_id
  pub channel : s.channel ≡ r.channel
  pub target_ref : s.target_ref ≡ r.target_ref
  pub opened_at : s.opened_at ≡ r.opened_at

pub Follows-refl : (r : RolloutRecord) → Follows r r
Follows-refl r = record {
  path = stay;
  wave = omega arith;
  rollout_id = refl;
  channel = refl;
  target_ref = refl;
  opened_at = refl;
}

Follows-trans : (r s t : RolloutRecord) → Follows r s → Follows s t → Follows r t
Follows-trans r s t f g = record {
  path = ⇝*-trans f.path g.path;
  wave = omega (arith, f.wave, g.wave);
  rollout_id = g.rollout_id ∙ f.rollout_id;
  channel = g.channel ∙ f.channel;
  target_ref = g.target_ref ∙ f.target_ref;
  opened_at = g.opened_at ∙ f.opened_at;
}

-- The row under a key, before and after: no row is lost, and a new one has its key.
abbrev pub Advanced : RolloutId → Option RolloutRecord → Option RolloutRecord → Type 0
Advanced id none none = Unit
Advanced id none (some s) = s.rollout_id ≡ id
Advanced id (some r) none = ⊥
Advanced id (some r) (some s) = Follows r s

Advanced-trans :
    (id : RolloutId) (o p q : Option RolloutRecord)
    → Advanced id o p
    → Advanced id p q
    → Advanced id o q
Advanced-trans id none none q f g = g
Advanced-trans id none (some s) none f g = elim g [ ]
Advanced-trans id none (some s) (some t) f g = g.rollout_id ∙ f
Advanced-trans id (some r) none q f g = elim f [ ]
Advanced-trans id (some r) (some s) none f g = elim g [ ]
Advanced-trans id (some r) (some s) (some t) f g = Follows-trans r s t f g

-- A list after another: the old entries, and then any new ones.
abbrev pub Extends {ℓ} : {A : Type ℓ} → List A → List A → Type ℓ
Extends xs ys = (more : _) × (ys ≡ xs ++ more)

append_nil {ℓ} : {A : Type ℓ} (xs : List A) → xs ++ [] ≡ xs
append_nil [] = refl
append_nil (x ∷ xs) = rw (append_nil xs) refl

pub Extends-refl {ℓ} : {A : Type ℓ} (xs : List A) → Extends xs xs
Extends-refl xs = ([], sym (append_nil xs))

Extends-trans {ℓ} : {A : Type ℓ} (xs ys zs : List A) → Extends xs ys → Extends ys zs → Extends xs zs
Extends-trans xs ys zs (more, p) (rest, q) = (more ++ rest, rw (q, p) (append_assoc xs more rest))

-- The tables after an operation.
pub record Later (a b : Db) : Type 0 where
  pub rollouts : (id : RolloutId) → Advanced id (get a.rollouts id) (get b.rollouts id)
  pub event_log : Extends a.event_log b.event_log
  pub quarantines : Extends a.quarantined_closures b.quarantined_closures
  pub probe_failures : Extends a.probe_failures b.probe_failures

-- Every rollout's row stands under its own id.
abbrev pub HasKey : RolloutId → Option RolloutRecord → Type 0
HasKey id none = Unit
HasKey id (some r) = r.rollout_id ≡ id

abbrev pub IsKeyed : Db → Type 0
IsKeyed db = (id : RolloutId) → HasKey id (get db.rollouts id)

HasKey-Advanced :
    (id : RolloutId) (o p : Option RolloutRecord) → HasKey id o → Advanced id o p → HasKey id p
HasKey-Advanced id none none k a = tt
HasKey-Advanced id none (some s) k a = a
HasKey-Advanced id (some r) none k a = elim a [ ]
HasKey-Advanced id (some r) (some s) k a = a.rollout_id ∙ k

pub Later-IsKeyed : (a b : Db) → IsKeyed a → Later a b → IsKeyed b
Later-IsKeyed a b keyed l =
    λ id. HasKey-Advanced id (get a.rollouts id) (get b.rollouts id) (keyed id) (l.rollouts id)

pub unchanged : (id : RolloutId) (o : Option RolloutRecord) → Advanced id o o
unchanged id none = tt
unchanged id (some r) = Follows-refl r

pub same_rollouts :
    (db : Db) (id : RolloutId) → Advanced id (get db.rollouts id) (get db.rollouts id)
same_rollouts db id = unchanged id (get db.rollouts id)

pub Later-refl : (db : Db) → Later db db
Later-refl db = record {
  rollouts = same_rollouts db;
  event_log = Extends-refl db.event_log;
  quarantines = Extends-refl db.quarantined_closures;
  probe_failures = Extends-refl db.probe_failures;
}

pub Later-trans : (a b c : Db) → Later a b → Later b c → Later a c
Later-trans a b c f g = record {
  rollouts = λ id.
      Advanced-trans id (get a.rollouts id) (get b.rollouts id) (get c.rollouts id) (f.rollouts id)
        (g.rollouts id);
  event_log = Extends-trans a.event_log b.event_log c.event_log f.event_log g.event_log;
  quarantines =
      Extends-trans a.quarantined_closures b.quarantined_closures c.quarantined_closures
        f.quarantines g.quarantines;
  probe_failures =
      Extends-trans a.probe_failures b.probe_failures c.probe_failures f.probe_failures
        g.probe_failures;
}

-- Either of two outcomes of a test.
pub Later-if : (c : Bool) (a b d : Db) → Later a b → Later a d → Later a (if c then b else d)
Later-if c a b d f g = ground arith
