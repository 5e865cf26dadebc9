-- ===== src/ControlPlane/Applier/ProbeRows.antt =====
-- crates/nixfleet-control-plane/src/runtime/applier.rs: the rows that a failed probe leaves.
use nixfleet.Prelude.{
  String, Bool, true, false, none, some, List, [], ◌∷◌, if◌then◌else◌, string_eq,
}
use nixfleet.Proto.{Time, RolloutId, rollout_id_eq, HostId}
use nixfleet.Host.State.{ProbeStatus, ProbeMode, ProbeSubResult, fail, enforce}
use nixfleet.Host.Effect.{OutboundAgentEvent, probe_result}
use nixfleet.ControlPlane.Store.ProbeFailures.{ProbeFailureInsert}

-- The rows of a failed probe: one for each control that fails and is enforced, or one without a
-- control where the probe has none.
abbrev pub is_enforced_fail : ProbeMode → ProbeStatus → Bool
is_enforced_fail enforce fail = true
is_enforced_fail _ _ = false

unfoldable pub sub_failures :
    RolloutId → HostId → String → Time → List ProbeSubResult → List ProbeFailureInsert
sub_failures rollout_id host probe_name observed_at [] = []
sub_failures rollout_id host probe_name observed_at (sr ∷ srs) =
    let rest = sub_failures rollout_id host probe_name observed_at srs in
    if is_enforced_fail sr.effective_mode sr.status
    then record {
      rollout_id = rollout_id;
      host_id = host;
      probe_name = probe_name;
      control_id = some sr.control_id;
      framework = some sr.framework;
      observed_at = observed_at;
    }
      ∷ rest
    else rest

abbrev whole_probe :
    RolloutId → HostId → String → ProbeMode → ProbeStatus → Time → List ProbeFailureInsert
whole_probe rollout_id host probe_name mode status observed_at =
    if is_enforced_fail mode status
    then record {
      rollout_id = rollout_id;
      host_id = host;
      probe_name = probe_name;
      control_id = none;
      framework = none;
      observed_at = observed_at;
    }
      ∷ []
    else []

unfoldable pub probe_rows : RolloutId → HostId → OutboundAgentEvent → List ProbeFailureInsert
unfolding sub_failures
probe_rows rollout_id host (probe_result probe_name mode status observed_at _ none _) =
    whole_probe rollout_id host probe_name mode status observed_at
probe_rows rollout_id host (probe_result probe_name mode status observed_at _ (some []) _) =
    whole_probe rollout_id host probe_name mode status observed_at
probe_rows rollout_id host (probe_result probe_name mode status observed_at _ (some (sr ∷ srs)) _) =
    sub_failures rollout_id host probe_name observed_at (sr ∷ srs)
probe_rows rollout_id host _ = []
