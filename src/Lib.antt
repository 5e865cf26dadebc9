-- ===== src/Lib.antt =====
-- Verification library for nixfleet: the pure cores that decide what the fleet does.
--
-- The control plane plans rollouts over a fleet of hosts, and an agent on each host carries them
-- out. Three reducers and one planner hold the decisions, and this library models them:
--
--   * Prelude: the names that the other modules share. `HashMap` is an association list in iteration
--     order, so that a theorem on a loop over a map ranges over every order; `Display` is what
--     `format!` makes of a number.
--   * Proto (crates/nixfleet-proto/src): the data that both sides share: `RolloutId` with its
--     separator, selectors, policies, the resolved fleet, the rollout manifest, and the wire events.
--     A `DateTime<Utc>` is a number of nanoseconds, as Proto.antt says.
--   * Host (crates/nixfleet-state-machine/src): the reducer of one host in one rollout. State, Event,
--     Effect and Error hold the data, Transitions one handler per state and `dispatch` and `step`,
--     Rehydration and Wire the effects after a snapshot and the conversions to and from the wire.
--     Run is the loop that both reducers have around `step`: a refused event is dropped. Mirror
--     compares the agent's half of the reducer (`Local*` events) with the control plane's (`Remote*`).
--   * Agent (crates/nixfleet-agent/src/runtime/reducer.rs): the reducer task of the agent: its records
--     by rollout, `run_host_event` with the numbers that it gives, the two gates of the tick, and the
--     merge of a snapshot that the control plane sends.
--   * Rollout (crates/nixfleet-state-machine/src/rollout): the reducer of one channel's rollout, with
--     its wave cursor and its stamps.
--   * Planner (crates/nixfleet-reconciler/src): `plan_next` of planner.rs and the six gates of
--     planner_gates. The loops over maps and lists are structural recursions; the counters keep the
--     wrap-around of u32 and usize, and `saturating_add` its bound.
--   * ControlPlane (crates/nixfleet-control-plane/src): the task of the control plane and its
--     tables. Store holds one module per table of db/: `Db` is their product, a table with a primary
--     key is an association list and one with a row id a list in the order of insertion, and a query
--     is the filter and the sort that its SQL names. Io is what SQLite and the clock's text answer:
--     `Io.succeeds` says of each statement whether it goes through, and a failure leaves the table
--     as it was. Json and Payload are the payloads of the event log (`outbound_event_to_json`), a
--     value of JSON each, not its text. Applier (runtime/applier.rs) turns the effects of the
--     planner and of the two reducers into writes, with Opening for a new rollout, ProbeRows for
--     failed probes and RolloutEvents for the reducer of rollouts. Runtime (runtime/reducer.rs,
--     runtime/mod.rs) is the task: FleetView loads what the planner reads, HostEvents is
--     `handle_host_event`, Heartbeats the recovery of missed events and the reply, and `run_inputs`
--     the loop over the inputs that the channel gives. Recovery and Waves are the pure parts of that
--     file, on one row. History is what becomes of the tables over a run of the task.
--   * Trust (trust.rs of nixfleet-proto, trust_rotation.rs of nixfleet-reconciler, freshness.rs of
--     nixfleet-agent): key slots, their rotation, and the freshness of a signature.
--   * Projection (crates/nixfleet-reconciler/src/manifest.rs): the manifest of a channel, out of the
--     fleet, and the ids of the rollouts that a fleet asks for.
--   * Verify (crates/nixfleet-reconciler/src/verify.rs): the gates that a signed file passes. The
--     libraries that it calls, for the canonical form, the parser of JSON, base64 and the signatures of
--     ed25519 and ECDSA, are a record of parameters, `Library`, and the parser of the payload is one of
--     its own. A `SignedSidecar` is an interface with four instances.
--
-- The loops of the program are recursions on the list that they walk, so that no fuel is needed; the
-- one function on fuel, the decimal digits of a number (Prelude/Display.antt), gets one more unit
-- than the number, which has fewer digits than that.
--
-- A record's `mut` fields become an explicit new record, `Result` and `?` the `Result` of
-- Prelude/Results.antt, and an error that the program logs and drops leaves the record as it was.
--
-- Not modelled: SQLite itself, its locks and its text of times; the mode of the control plane without
-- a database; the HTTP server, the workers and the agent's applier of effects, which are I/O around
-- these decisions; the issuance of certificates and the tables of tokens, nonces and revocations; and
-- the operators' command-line tools. The emission of metrics and logs is data that no handler makes.
mod Prelude
pub mod Proto
pub mod Host
pub mod Rollout
pub mod Planner
pub mod Agent
pub mod ControlPlane
pub mod Trust
pub mod Projection
pub mod Verify
