-- ===== src/Traceroute/Rounds.antt =====
-- server/src/measurements.rs: a whole round of `run_single_traceroute_round`.
use netpoke.Prelude.{
  ℕ, zero, suc, ◌≤◌, ◌≡◌, refl, sym, ap, true, ◌||◌, ◌==◌, [], ◌∷◌, ◌++◌, String, arith, All,
  append-nil, Bool-cases, inl, inr, map,
}
use netpoke.Fault.{Outcome, found}
use netpoke.Probes.Floats.{Floats}
use netpoke.Traceroute.Messages.{traceroute_completed}
use netpoke.Traceroute.{
  Printing, Trace, Turn, meanwhile, wait_for_events, run_single_traceroute_round, count_up, max_ttl,
  trace_drain_count, is_known, completed,
}
use netpoke.Traceroute.Draining.{Heard, HasTtl, drained, hop_of, drain_traceroute_events-Follows}
use netpoke.Traceroute.Turns.{
  slept, after_turns, KeepsTtl, Follow, Ends, meanwhile-Follows, traceroute_turns-Ends,
}

-- So many rounds of the wait from `n` down: each drains, and then sleeps.
abbrev pub after_wait : String → (ℕ → Turn) → ℕ → ℕ → Heard → Heard
after_wait conn_id wait zero rounds h = slept (wait zero) (drained conn_id h)
after_wait conn_id wait (suc n) zero h = slept (wait (suc n)) (drained conn_id h)
after_wait conn_id wait (suc n) (suc rounds) h =
    after_wait conn_id wait n rounds (slept (wait (suc n)) (drained conn_id h))

-- The queue and the reports of a whole round whose wait has one round more than `rounds`.
abbrev pub after_round : String → (ℕ → Turn) → (ℕ → Turn) → ℕ → Heard → Heard
after_round conn_id turn wait rounds h =
    after_wait conn_id wait trace_drain_count rounds
      (after_turns conn_id turn (count_up 1 max_ttl) h)

module _ (f : Floats) (print : Printing f.F) (conn_id survey_session_id : String) where
  open f use {F}

  -- The wait ends after at most `n + 1` drains.
  record EndsWait (w : Trace F) (run : Outcome (Trace F)) (h : Heard) (wait : ℕ → Turn) (n : ℕ)
      : Type 0 where
    rounds : ℕ
    bound : rounds ≤ n
    run_ends : Ends f print conn_id survey_session_id w run (after_wait conn_id wait n rounds h)

  wait_for_events-EndsWait :
      (w w' : Trace F) (h : Heard) (wait : ℕ → Turn) (n : ℕ)
      → KeepsTtl wait
      → Follow f print conn_id survey_session_id w w' h
      → EndsWait w (wait_for_events f print conn_id survey_session_id wait n w') h wait n
  unfolding wait_for_events
  wait_for_events-EndsWait w w' h wait zero k r =
      let (v, runs, after) =
        drain_traceroute_events-Follows f print conn_id survey_session_id w w' h r in
      record {
        rounds = 0;
        bound = omega arith;
        run_ends = record {
          last = meanwhile f print conn_id survey_session_id (wait 0) v;
          ends = rw runs refl;
          follows =
              meanwhile-Follows f print conn_id survey_session_id w v (drained conn_id h) (wait 0)
                (k 0) after;
        };
      }
  wait_for_events-EndsWait w w' h wait (suc n) k r =
      let (v, runs, after) =
        drain_traceroute_events-Follows f print conn_id survey_session_id w w' h r in
      let woken = meanwhile f print conn_id survey_session_id (wait (suc n)) v in
      let follows =
        meanwhile-Follows f print conn_id survey_session_id w v (drained conn_id h) (wait (suc n))
          (k (suc n)) after in
      elim (Bool-cases (
        is_known f print conn_id survey_session_id woken.state.path_ttl
        || (woken.n_probes_out == 0))) [
          | inl y ↦ record {
            rounds = 0;
            bound = omega arith;
            run_ends = record { last = woken; ends = rw runs (rw y refl); follows = follows };
          }
          | inr y ↦
              let more =
                wait_for_events-EndsWait w woken (slept (wait (suc n)) (drained conn_id h)) wait n k
                  follows in
              record {
                rounds = suc more.rounds;
                bound = omega (arith, more.bound);
                run_ends = record {
                  last = more.run_ends.last;
                  ends = rw runs (rw y more.run_ends.ends);
                  follows = more.run_ends.follows;
                };
              }
        ]

  -- A round whose control channel is open ends after at most five drains of the wait, without a panic,
  -- whatever the other tasks do to the queue of the events in its sleeps (they may drain it too), as long
  -- as every event has a hop limit. It has reported, each time that it drained, the events of its
  -- connection that were in the queue then, in their order, and taken no others; its last message says
  -- that it is complete.
  pub run_single_traceroute_round_lem :
      (turn wait : ℕ → Turn) (w : Trace F)
      → All HasTtl w.tracker.event_queue
      → KeepsTtl turn
      → KeepsTtl wait
      → (v : Trace F) × (rounds : ℕ) × (run_single_traceroute_round f print conn_id
            survey_session_id true turn wait w
          ≡ found v)
        × (rounds ≤ 4)
        × let h =
            after_round conn_id turn wait rounds
              (record { queue = w.tracker.event_queue; reported = [] }) in
          (v.messages
            ≡ (w.messages ++ map (hop_of f print conn_id survey_session_id) h.reported)
              ++ (traceroute_completed
                    (record { conn_id = conn_id; survey_session_id = survey_session_id })
                  ∷ []))
          × (v.tracker.event_queue ≡ h.queue)
  unfolding run_single_traceroute_round
  run_single_traceroute_round_lem turn wait w q t u =
      let begun : Heard = record { queue = w.tracker.event_queue; reported = [] } in
      let sent =
        traceroute_turns-Ends f print conn_id survey_session_id w (record w { n_probes_out = 0 })
          begun turn (count_up 1 max_ttl) t
          (record { said = sym (append-nil w.messages); left = refl; pending = q }) in
      let waited =
        wait_for_events-EndsWait w sent.last (after_turns conn_id turn (count_up 1 max_ttl) begun)
          wait trace_drain_count u sent.follows in
      (
        completed f print conn_id survey_session_id waited.run_ends.last,
        waited.rounds,
        rw sent.ends (rw waited.run_ends.ends refl),
        waited.bound,
        (
          ap
              (λ ms.
                ms
                ++ (traceroute_completed
                      (record { conn_id = conn_id; survey_session_id = survey_session_id })
                    ∷ []))
              waited.run_ends.follows.said,
          waited.run_ends.follows.left,
        ),
      )
