-- ===== src/ControlPlane/Store/Records.antt =====
-- crates/nixfleet-control-plane/src/db/host_rollout_records.rs: the table of host records, and the
-- strings of its columns `state` and `policy_applied`.
use nixfleet.Prelude.{
  String, ◌≡◌, refl, Bool, true, false, ◌&&◌, List, [], ◌∷◌, Option, Result, ok, err, if◌then◌else◌,
  string_eq, pair_eq,
}
use nixfleet.Prelude.HashMap.{HashMap, get, insert}
use nixfleet.Proto.{RolloutId, rollout_id_eq, OnHealthFailure, halt, rollback_and_halt}
use nixfleet.Host.State.{
  HostState, HostRolloutState, pending, activating, deferred, soaking, converged, failed, reverted,
}

-- The primary key is the rollout and the host name.
abbrev pub RecordTable : Type 0
RecordTable = HashMap (RolloutId × String) HostRolloutState

-- `INSERT … ON CONFLICT (rollout_id, hostname) DO UPDATE` of every other column.
unfoldable pub upsert : RecordTable → HostRolloutState → RecordTable
unfolding insert
upsert table s = insert table (s.rollout_id, s.hostname) s

unfoldable pub load : RecordTable → RolloutId → String → Option HostRolloutState
unfolding get
load table rollout_id hostname = get table (rollout_id, hostname)

unfoldable pub all_for_rollout : RecordTable → RolloutId → List HostRolloutState
all_for_rollout [] rollout_id = []
all_for_rollout (((id, _), s) ∷ table) rollout_id =
    let rest = all_for_rollout table rollout_id in
    if rollout_id_eq.beq id rollout_id then s ∷ rest else rest

-- `state IN ('Pending', 'Activating', 'Deferred', 'Soaking', 'Failed')`
abbrev pub is_active : HostState → Bool
is_active converged = false
is_active reverted = false
is_active _ = true

unfoldable pub active_for_host : RecordTable → String → List HostRolloutState
active_for_host [] hostname = []
active_for_host (((_, name), s) ∷ table) hostname =
    let rest = active_for_host table hostname in
    if string_eq.beq name hostname && is_active s.state then s ∷ rest else rest

unfoldable pub state_to_db : HostState → String
state_to_db pending = "Pending"
state_to_db activating = "Activating"
state_to_db deferred = "Deferred"
state_to_db soaking = "Soaking"
state_to_db converged = "Converged"
state_to_db failed = "Failed"
state_to_db reverted = "Reverted"

unfoldable pub state_from_db : String → Result HostState String
state_from_db s =
    if string_eq.beq s "Pending"
    then ok pending
    else if string_eq.beq s "Activating"
    then ok activating
    else if string_eq.beq s "Deferred"
    then ok deferred
    else if string_eq.beq s "Soaking"
    then ok soaking
    else if string_eq.beq s "Converged"
    then ok converged
    else if string_eq.beq s "Failed"
    then ok failed
    else if string_eq.beq s "Reverted"
    then ok reverted
    else err s

unfoldable pub policy_to_db : OnHealthFailure → String
policy_to_db halt = "halt"
policy_to_db rollback_and_halt = "rollback-and-halt"

unfoldable pub policy_from_db : String → Result OnHealthFailure String
policy_from_db s =
    if string_eq.beq s "halt"
    then ok halt
    else if string_eq.beq s "rollback-and-halt"
    then ok rollback_and_halt
    else err s

state_from_db-state_to_db : (h : HostState) → state_from_db (state_to_db h) ≡ ok h
unfolding state_from_db state_to_db
state_from_db-state_to_db pending = refl
state_from_db-state_to_db activating = refl
state_from_db-state_to_db deferred = refl
state_from_db-state_to_db soaking = refl
state_from_db-state_to_db converged = refl
state_from_db-state_to_db failed = refl
state_from_db-state_to_db reverted = refl

policy_from_db-policy_to_db : (p : OnHealthFailure) → policy_from_db (policy_to_db p) ≡ ok p
unfolding policy_from_db policy_to_db
policy_from_db-policy_to_db halt = refl
policy_from_db-policy_to_db rollback_and_halt = refl
