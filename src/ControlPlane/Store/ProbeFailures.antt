-- ===== src/ControlPlane/Store/ProbeFailures.antt =====
-- crates/nixfleet-control-plane/src/db/probe_failures.rs
use nixfleet.Prelude.{
  ℕ, String, List, [], ◌∷◌, ◌++◌, ◌&&◌, not, Option, if◌then◌else◌, unwrap_or, string_eq, length,
  contains,
}
use nixfleet.Prelude.HashMap.{HashMap, get, insert}
use nixfleet.Proto.{Time, RolloutId, rollout_id_eq, HostId}

pub record ProbeFailureInsert : Type 0 where
  pub rollout_id : RolloutId
  pub host_id : HostId
  pub probe_name : String
  pub control_id : Option String
  pub framework : Option String
  pub observed_at : Time

-- The rows of a batch, in one transaction.
unfoldable pub insert_many :
    List ProbeFailureInsert → List ProbeFailureInsert → List ProbeFailureInsert
insert_many table rows = table ++ rows

-- `COALESCE(control_id, probe_name)`
abbrev pub control : ProbeFailureInsert → String
control r = unwrap_or r.control_id r.probe_name

-- The distinct controls of one rollout and host.
unfoldable pub failing_controls : List ProbeFailureInsert → RolloutId → HostId → List String
unfolding contains
failing_controls [] rollout_id host_id = []
failing_controls (r ∷ table) rollout_id host_id =
    let rest = failing_controls table rollout_id host_id in
    if rollout_id_eq.beq r.rollout_id rollout_id
      && string_eq.beq r.host_id host_id
      && not (contains rest (control r))
    then control r ∷ rest
    else rest

-- `out.entry(rollout).or_default().insert(host, n)`
abbrev add_count :
    HashMap RolloutId (HashMap HostId ℕ)
    → RolloutId
    → HostId
    → ℕ
    → HashMap RolloutId (HashMap HostId ℕ)
unfolding get insert
add_count out rollout_id host_id n =
    insert out rollout_id (insert (unwrap_or (get out rollout_id) []) host_id n)

-- `GROUP BY rollout_id, host_id`, each group at its last row.
unfoldable pub collect_failures :
    List ProbeFailureInsert → List ProbeFailureInsert → HashMap RolloutId (HashMap HostId ℕ)
unfolding failing_controls add_count
collect_failures table [] = []
collect_failures table (r ∷ rows) =
    add_count (collect_failures table rows) r.rollout_id r.host_id
      (length (failing_controls table r.rollout_id r.host_id))

unfoldable pub outstanding_failing_enforce_probes_by_rollout :
    List ProbeFailureInsert → HashMap RolloutId (HashMap HostId ℕ)
unfolding collect_failures
outstanding_failing_enforce_probes_by_rollout table = collect_failures table table
