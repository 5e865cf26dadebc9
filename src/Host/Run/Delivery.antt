-- ===== src/Host/Run/Delivery.antt =====
-- The stream between an agent and the control plane: delivery in order, and delivery again.
use nixfleet.Prelude.{
  ◌≡◌, ◌≤◌, refl, ◌∙◌, inl, inr, true, List, [], ◌∷◌, ◌++◌, map, ok, err, arith, Result-cases, All,
}
use nixfleet.Proto.{Time, RolloutPolicy}
use nixfleet.Host.State.{HostRolloutState}
use nixfleet.Host.Event.{Event, seq}
use nixfleet.Host.Effect.{Effect, OutboundAgentEvent}
use nixfleet.Host.Error.{TransitionError}
use nixfleet.Host.Transitions.{step}
use nixfleet.Host.Wire.{event_from_wire, outbound_to_wire}
use nixfleet.Host.Steps.{step_accepted, step_stale, step-seq}
use nixfleet.Host.Mirror.{
  seq-arrival, sent, logged, is_local, payload_of, step-Mirrors, step_any_time,
}
use nixfleet.Host.Run.{absorb, run}

-- The events that the control plane makes of posted payloads, all handled at time `t`.
abbrev pub arrivals : Time → List OutboundAgentEvent → List (Event × Time)
arrivals t ps = map (λ p. (event_from_wire (outbound_to_wire p), t)) ps

abbrev pub AllLocal : List (Event × Time) → Type 0
AllLocal es = All (λ (x : Event × Time). is_local x.0 ≡ true) es

sent-append : (fx gx : List Effect) → sent (fx ++ gx) ≡ sent fx ++ sent gx
unfolding sent
sent-append [] gx = refl
sent-append (f ∷ fx) gx = ground (arith, sent-append fx gx)

logged-append : (fx gx : List Effect) → logged (fx ++ gx) ≡ logged fx ++ logged gx
unfolding logged
logged-append [] gx = refl
logged-append (f ∷ fx) gx = ground (arith, logged-append fx gx)

last_event_seq-le-absorb :
    (policy : RolloutPolicy) (s : HostRolloutState) (e : Event) (now : Time)
    → s.last_event_seq ≤ (absorb policy s e now).0.last_event_seq
unfolding absorb
last_event_seq-le-absorb policy s e now = elim (Result-cases (step s e now policy)) [
  | inl ((t, fx), h) ↦
      rw (h, absorb) (omega (arith, step_accepted s e now policy h, step-seq s e now policy h))
  | inr (x, h) ↦ rw (h, absorb) (omega arith)
]

module _ (policy : RolloutPolicy) where
  -- One accepted event, and the rest of the stream.
  pub run-cons_ok :
      (s : HostRolloutState) (e : Event) (now : Time) (es : List (Event × Time))
      {t : HostRolloutState} {fx : List Effect}
      → step s e now policy ≡ ok (t, fx)
      → run policy s ((e, now) ∷ es) ≡ ((run policy t es).0, fx ++ (run policy t es).1)
  unfolding run absorb
  run-cons_ok s e now es h = rw (h, absorb)

  -- One refused event, and the rest of the stream.
  pub run-cons_err :
      (s : HostRolloutState) (e : Event) (now : Time) (es : List (Event × Time))
      {x : TransitionError}
      → step s e now policy ≡ err x
      → run policy s ((e, now) ∷ es) ≡ run policy s es
  unfolding run absorb
  run-cons_err s e now es h = rw (h, absorb)

  -- The control plane, given what a run of the agent sends, in order.
  pub record Follows (t : Time) (s s' : HostRolloutState) (ps : List OutboundAgentEvent)
      : Type 0 where
    pub same_state : (run policy s (arrivals t ps)).0 ≡ s'
    pub same_log : logged (run policy s (arrivals t ps)).1 ≡ ps

  Follows-cons :
      (t : Time) (s : HostRolloutState) (e : Event) (now : Time) {s1 s' : HostRolloutState}
      {fx : List Effect} (gx : List Effect)
      → is_local e ≡ true
      → step s e now policy ≡ ok (s1, fx)
      → Follows t s1 s' (sent gx)
      → Follows t s s' (sent (fx ++ gx))
  Follows-cons t s e now {s1} {s'} {fx} gx l h f =
      let m = step-Mirrors s e now policy l h in
      let mirrored_step =
        step_any_time s (event_from_wire (outbound_to_wire (payload_of e))) t now policy
        ∙ m.same_state in
      let split =
        run-cons_ok s (event_from_wire (outbound_to_wire (payload_of e))) t (arrivals t (sent gx))
          mirrored_step in
      let order : sent (fx ++ gx) ≡ payload_of e ∷ sent gx = rw (sent-append, m.one_sent) in
      rw order (record {
        same_state = rw split f.same_state;
        same_log = rw (split, logged-append, m.same_payload, f.same_log);
      })

  Follows-nil :
      (t : Time) (s : HostRolloutState) → Follows t s (run policy s []).0 (sent (run policy s []).1)
  unfolding run sent logged
  Follows-nil t s = record { same_state = refl; same_log = refl }

  -- For every list of events of the agent's own workers: the control plane, starting from the record
  -- that the agent starts from, under the same policy, and given the payloads that the agent sends,
  -- in order, at any time, ends in the record that the agent ends in, and its event log holds exactly
  -- those payloads.
  pub run-Follows :
      (t : Time) (s : HostRolloutState) (es : List (Event × Time))
      → AllLocal es
      → Follows t s (run policy s es).0 (sent (run policy s es).1)
  run-Follows t s [] l = Follows-nil t s
  run-Follows t s ((e, now) ∷ es) (l, ls) = elim (Result-cases (step s e now policy)) [
    | inl ((s1, fx), h) ↦
        rw (run-cons_ok s e now es h)
          (Follows-cons t s e now (run policy s1 es).1 l h (run-Follows t s1 es ls))
    | inr (x, h) ↦ rw (run-cons_err s e now es h) (run-Follows t s es ls)
  ]

  -- Numbers only grow along a run.
  last_event_seq-le-run :
      (s : HostRolloutState) (es : List (Event × Time))
      → s.last_event_seq ≤ (run policy s es).0.last_event_seq
  unfolding run
  last_event_seq-le-run s [] = omega arith
  last_event_seq-le-run s ((e, now) ∷ es) = omega (
    arith,
    last_event_seq-le-absorb policy s e now,
    last_event_seq-le-run (absorb policy s e now).0 es,
  )

  abbrev AllStale : HostRolloutState → List (Event × Time) → Type 0
  AllStale s es = All (λ (x : Event × Time). seq x.0 ≤ s.last_event_seq) es

  run_stale :
      (s : HostRolloutState) (es : List (Event × Time)) → AllStale s es → run policy s es ≡ (s, [])
  unfolding run absorb
  run_stale s [] h = refl
  run_stale s ((e, now) ∷ es) (h, hs) =
      rw (step_stale s e now policy h, absorb) (rw (run_stale s es hs))

  AllStale-nil :
      (u : Time) (last s : HostRolloutState) → AllStale last (arrivals u (sent (run policy s []).1))
  unfolding run sent
  AllStale-nil u last s = tt

  AllStale-sent :
      (u : Time) (last : HostRolloutState) (s : HostRolloutState) (es : List (Event × Time))
      → AllLocal es
      → (run policy s es).0.last_event_seq ≤ last.last_event_seq
      → AllStale last (arrivals u (sent (run policy s es).1))
  AllStale-sent u last s [] l h = AllStale-nil u last s
  AllStale-sent u last s ((e, now) ∷ es) (l, ls) h = elim (Result-cases (step s e now policy)) [
    | inl ((s1, fx), ok_step) ↦
        let split = run-cons_ok s e now es ok_step in
        let m = step-Mirrors s e now policy l ok_step in
        let bound : (run policy s1 es).0.last_event_seq ≤ last.last_event_seq = rw split at h in
        let order : sent (fx ++ (run policy s1 es).1) ≡ payload_of e ∷ sent (run policy s1 es).1 =
          rw (sent-append, m.one_sent) in
        rw (split, order)
          (
            rw seq-arrival
                (omega (arith, step-seq s e now policy ok_step, last_event_seq-le-run s1 es)),
            AllStale-sent u last s1 es ls bound,
          )
    | inr (x, refused) ↦
        let same = run-cons_err s e now es refused in
        rw same (AllStale-sent u last s es ls (rw same at h))
  ]

  -- The payloads of a run of events of the agent's own workers, posted again in order, at any time, to
  -- the record that the run ended in, change nothing and cause no effect.
  pub redelivery_absorbed :
      (u : Time) (s : HostRolloutState) (es : List (Event × Time))
      → AllLocal es
      → run policy (run policy s es).0 (arrivals u (sent (run policy s es).1))
        ≡ ((run policy s es).0, [])
  redelivery_absorbed u s es l =
      run_stale (run policy s es).0 _ (AllStale-sent u (run policy s es).0 s es l (omega arith))
