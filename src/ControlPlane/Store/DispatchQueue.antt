-- ===== src/ControlPlane/Store/DispatchQueue.antt =====
-- crates/nixfleet-control-plane/src/db/dispatch_queue.rs: the dispatches that agents wait for.
use nixfleet.Prelude.{
  String, Bool, true, false, not, ◌&&◌, [], ◌∷◌, Option, none, some, if◌then◌else◌, ltb, string_eq,
  pair_eq,
}
use nixfleet.Prelude.HashMap.{HashMap, insert, retain}
use nixfleet.Proto.{Time, RolloutId, rollout_id_eq}

pub record QueuedDispatch : Type 0 where
  pub hostname : String
  pub rollout_id : RolloutId
  pub target_closure : String
  pub soak_due_at : Time
  pub enqueued_at : Time

abbrev pub DispatchTable : Type 0
DispatchTable = HashMap (String × RolloutId) QueuedDispatch

-- `INSERT … ON CONFLICT (hostname, rollout_id) DO UPDATE`
unfoldable pub upsert : DispatchTable → QueuedDispatch → DispatchTable
unfolding insert
upsert table q = insert table (q.hostname, q.rollout_id) q

-- The earlier of a row and the earliest of the rest: `ORDER BY enqueued_at ASC LIMIT 1`.
abbrev earlier : QueuedDispatch → Option QueuedDispatch → QueuedDispatch
earlier q none = q
earlier q (some r) = if ltb r.enqueued_at q.enqueued_at then r else q

unfoldable pub next_for_host : DispatchTable → String → Option QueuedDispatch
next_for_host [] hostname = none
next_for_host (((name, _), q) ∷ table) hostname =
    let rest = next_for_host table hostname in
    if string_eq.beq name hostname then some (earlier q rest) else rest

-- `take_for_host`: the select and the delete of one transaction.
unfoldable pub take_for_host : DispatchTable → String → DispatchTable × Option QueuedDispatch
unfolding next_for_host retain
take_for_host table hostname = elim (next_for_host table hostname) [
  | none ↦ (table, none)
  | some q ↦ (
    retain
        (λ (e : (String × RolloutId) × QueuedDispatch).
          not (string_eq.beq (e.0).0 hostname && rollout_id_eq.beq (e.0).1 q.rollout_id))
        table,
    some q,
  )
]

-- `COUNT(*) > 0`
unfoldable pub peek_for_host : DispatchTable → String → Bool
peek_for_host [] hostname = false
peek_for_host (((name, _), _) ∷ table) hostname =
    let rest = peek_for_host table hostname in if string_eq.beq name hostname then true else rest
