-- ===== src/ControlPlane/History/Quarantine.antt =====
-- The set of quarantined closures that the task plans with, after any inputs: see `ReducerState` of
-- crates/nixfleet-control-plane/src/runtime/reducer.rs.
use nixfleet.Prelude.{◌≡◌, refl, ◌∙◌, none, List, [], ◌∷◌}
use nixfleet.Prelude.HashMap.{get}
use nixfleet.Proto.{Time, ChannelId, ClosureHash}
use nixfleet.Planner.Gates.Quarantine.{check}
use nixfleet.ControlPlane.Io.{Io}
use nixfleet.ControlPlane.Store.{Db}
use nixfleet.ControlPlane.Runtime.HostEvents.{ReducerState}
use nixfleet.ControlPlane.Runtime.{
  ReducerInput, host_event, manifest_set_updated, heartbeat_received, plan_tick, handle_heartbeat,
  handle_input, run_inputs, initial,
}

handle_input-quarantines :
    (io : Io) (now : Time) (rs : ReducerState) (db : Db) (input : ReducerInput)
    → (handle_input io now rs db input).0.quarantines ≡ rs.quarantines
unfolding handle_input handle_heartbeat
handle_input-quarantines io now rs db (host_event host id e) = refl
handle_input-quarantines io now rs db (manifest_set_updated set) = refl
handle_input-quarantines io now rs db (heartbeat_received host id closure at) = refl
handle_input-quarantines io now rs db plan_tick = refl

run_inputs-quarantines :
    (rs : ReducerState) (db : Db) (inputs : List ((Io × Time) × ReducerInput))
    → (run_inputs rs db inputs).0.quarantines ≡ rs.quarantines
unfolding run_inputs
run_inputs-quarantines rs db [] = refl
run_inputs-quarantines rs db (((io, now), input) ∷ inputs) =
    let next = handle_input io now rs db input in
    run_inputs-quarantines next.0 next.1 inputs ∙ handle_input-quarantines io now rs db input

-- After any inputs from the task's start, the set of quarantined closures that it plans with is empty,
-- and the quarantine gate holds no closure of any channel, whatever the table of quarantines lists.
pub run_inputs-check :
    (db : Db) (inputs : List ((Io × Time) × ReducerInput)) (channel : ChannelId)
    (closure : ClosureHash)
    → ((run_inputs initial db inputs).0.quarantines ≡ [])
      × (check (run_inputs initial db inputs).0.quarantines channel closure ≡ none)
unfolding check get
run_inputs-check db inputs channel closure =
    let empty = run_inputs-quarantines initial db inputs in (empty, rw empty refl)
