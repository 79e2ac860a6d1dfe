-- ===== src/Traceroute/Turns.antt =====
-- server/src/measurements.rs: the turns of a round, and what they report of the queue.
use netpoke.Prelude.{
  ℕ, ◌≡◌, refl, ap, ◌∙◌, ◌&&◌, List, [], ◌∷◌, ◌++◌, String, All, Bool-cases, inl, inr,
  if◌then◌else◌,
}
use netpoke.Fault.{Outcome, found}
use netpoke.Tracker.{TrackedPacketEvent}
use netpoke.Probes.{TestProbePacket}
use netpoke.Probes.Floats.{Floats}
use netpoke.Traceroute.{
  Printing, Trace, Turn, meanwhile, traceroute_turn, traceroute_turns, testprobe,
  traceroute_options, track_testprobe, add_i32,
}
use netpoke.Traceroute.Draining.{Heard, HasTtl, drained, Follows, drain_traceroute_events-Follows}

-- While a round sleeps, the other tasks change the queue.
abbrev pub slept : Turn → Heard → Heard
slept turn h = record h { queue = turn.others h.queue }

-- A turn sleeps, and drains if its packet went out.
abbrev pub after_turn : String → Turn → Heard → Heard
after_turn conn_id turn h =
    if turn.is_open && turn.is_sent then drained conn_id (slept turn h) else slept turn h

abbrev pub after_turns : String → (ℕ → Turn) → List ℕ → Heard → Heard
after_turns conn_id turn [] h = h
after_turns conn_id turn (k ∷ ks) h = after_turns conn_id turn ks (after_turn conn_id (turn k) h)

-- The other tasks put events with a hop limit into the queue only.
abbrev pub KeepsTtl : (ℕ → Turn) → Type 0
KeepsTtl turn =
    (k : ℕ) (es : List TrackedPacketEvent) → All HasTtl es → All HasTtl ((turn k).others es)

module _ (f : Floats) (print : Printing f.F) (conn_id survey_session_id : String) where
  open f use {F}

  abbrev pub Follow : Trace F → Trace F → Heard → Type 0
  Follow w w' h = Follows f print conn_id survey_session_id w w' h

  pub meanwhile-Follows :
      (w w' : Trace F) (h : Heard) (turn : Turn)
      → ((es : List TrackedPacketEvent) → All HasTtl es → All HasTtl (turn.others es))
      → Follow w w' h
      → Follow w (meanwhile f print conn_id survey_session_id turn w') (slept turn h)
  unfolding meanwhile
  meanwhile-Follows w w' h turn k r = record {
    said = r.said;
    left = ap turn.others r.left;
    pending = k h.queue r.pending;
  }

  -- A run that ends where `h` says.
  pub record Ends (w : Trace F) (run : Outcome (Trace F)) (h : Heard) : Type 0 where
    pub last : Trace F
    pub ends : run ≡ found last
    pub follows : Follow w last h

  traceroute_turn-Ends :
      (w w' : Trace F) (h : Heard) (ttl : ℕ) (turn : Turn)
      → ((es : List TrackedPacketEvent) → All HasTtl es → All HasTtl (turn.others es))
      → Follow w w' h
      → Ends w
          (traceroute_turn f print conn_id survey_session_id ttl turn w')
          (after_turn conn_id turn h)
  unfolding traceroute_turn
  traceroute_turn-Ends w w' h ttl turn k r = elim (Bool-cases turn.is_open) [
    | inr o ↦ simp o (record {
      last = meanwhile f print conn_id survey_session_id turn w';
      ends = refl;
      follows = meanwhile-Follows w w' h turn k r;
    })
    | inl o ↦ elim (Bool-cases turn.is_sent) [
      | inr s ↦ simp o (
          simp s (record {
            last = meanwhile f print conn_id survey_session_id turn tracked;
            ends = refl;
            follows = meanwhile-Follows w tracked h turn k (same tracked refl refl);
          }))
      | inl s ↦
          let (v, runs, after) =
            drain_traceroute_events-Follows f print conn_id survey_session_id w
              (meanwhile f print conn_id survey_session_id turn counted) (slept turn h)
              (meanwhile-Follows w counted h turn k (same counted refl refl)) in
          simp o (simp s (record { last = v; ends = runs; follows = after }))
    ]
  ]
    where
      same :
          (v : Trace F)
          → v.messages ≡ w'.messages
          → v.tracker.event_queue ≡ w'.tracker.event_queue
          → Follow w v h
      same v e q = record { said = e ∙ r.said; left = q ∙ r.left; pending = r.pending }

      tracked : Trace F
      tracked = record w' {
        state = track_testprobe f print conn_id survey_session_id turn.now w'.state;
      }

      packet : TestProbePacket
      packet =
          testprobe f print conn_id survey_session_id
            (traceroute_options f print conn_id survey_session_id ttl) w'.state.testprobe_seq
            turn.now

      counted : Trace F
      counted = record tracked {
        probes = tracked.probes ++ ((packet, print.to_vec packet) ∷ []);
        n_probes_out = add_i32 tracked.n_probes_out 1;
      }

  pub traceroute_turns-Ends :
      (w w' : Trace F) (h : Heard) (turn : ℕ → Turn) (ttls : List ℕ)
      → KeepsTtl turn
      → Follow w w' h
      → Ends w
          (traceroute_turns f print conn_id survey_session_id turn ttls w')
          (after_turns conn_id turn ttls h)
  unfolding traceroute_turns
  traceroute_turns-Ends w w' h turn [] k r = record { last = w'; ends = refl; follows = r }
  traceroute_turns-Ends w w' h turn (ttl ∷ ttls) k r =
      let first = traceroute_turn-Ends w w' h ttl (turn ttl) (k ttl) r in
      let rest =
        traceroute_turns-Ends w first.last (after_turn conn_id (turn ttl) h) turn ttls k
          first.follows in
      record { last = rest.last; ends = rw first.ends rest.ends; follows = rest.follows }
