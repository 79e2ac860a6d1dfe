-- ===== src/Traceroute/Draining.antt =====
-- server/src/measurements.rs: what a drain reports and what it leaves.
use netpoke.Prelude.{
  ℕ, ◌≡◌, refl, ap, ◌∙◌, none, some, List, [], ◌∷◌, ◌++◌, String, String-discrete, arith, All,
  append_assoc, map, ite, sym, length,
}
use netpoke.Fault.{found}
use netpoke.Tracker.{TrackedPacketEvent, share_out, drain_events_for_conn_id}
use netpoke.Probes.Floats.{Floats}
use netpoke.Traceroute.Messages.{ControlMessage, trace_hop}
use netpoke.Traceroute.{
  Printing, report_all, hop_message, Trace, rtt, format_traceroute_message, drain_traceroute_events,
  sub_i32,
}

-- The events of the connection, and the others.
abbrev pub own : String → List TrackedPacketEvent → List TrackedPacketEvent
own conn_id [] = []
own conn_id (e ∷ es) = ite (String-discrete e.conn_id conn_id) (e ∷ own conn_id es) (own conn_id es)

abbrev pub rest : String → List TrackedPacketEvent → List TrackedPacketEvent
rest conn_id [] = []
rest conn_id (e ∷ es) =
    ite (String-discrete e.conn_id conn_id) (rest conn_id es) (e ∷ rest conn_id es)

share_out-own : (c : String) (es : List TrackedPacketEvent) → share_out c es ≡ (own c es, rest c es)
unfolding share_out
share_out-own c [] = refl
share_out-own c (e ∷ es) = ground (arith, share_out-own c es)

-- An event whose packet had a hop limit.
abbrev pub HasTtl : TrackedPacketEvent → Type 0
HasTtl e = (ttl : ℕ) × (e.send_options.ttl ≡ some ttl)

own-All : (c : String) (es : List TrackedPacketEvent) → All HasTtl es → All HasTtl (own c es)
own-All c [] h = tt
own-All c (e ∷ es) h =
    elim (String-discrete e.conn_id c) as (λ d. All HasTtl (ite d (e ∷ own c es) (own c es))) [
      | yes p ↦ (h.0, own-All c es h.1)
      | no n ↦ own-All c es h.1
    ]

rest-All : (c : String) (es : List TrackedPacketEvent) → All HasTtl es → All HasTtl (rest c es)
rest-All c [] h = tt
rest-All c (e ∷ es) h =
    elim (String-discrete e.conn_id c) as (λ d. All HasTtl (ite d (rest c es) (e ∷ rest c es))) [
      | yes p ↦ rest-All c es h.1
      | no n ↦ (h.0, rest-All c es h.1)
    ]

-- The queue of the events as a round finds it, and the events that it has reported.
pub record Heard : Type 0 where
  pub queue : List TrackedPacketEvent
  pub reported : List TrackedPacketEvent

-- A drain takes and reports the connection's events.
abbrev pub drained : String → Heard → Heard
drained conn_id h = record {
  queue = rest conn_id h.queue;
  reported = h.reported ++ own conn_id h.queue;
}

module _ (f : Floats) (print : Printing f.F) (conn_id survey_session_id : String) where
  open f use {F}

  -- What is said of an event.
  abbrev pub hop_of : TrackedPacketEvent → ControlMessage F
  hop_of event = trace_hop (record {
    hop = elim event.send_options.ttl [ none ↦ 0 | some ttl ↦ ttl ];
    ip_address = event.router_ip;
    rtt_ms = rtt f print conn_id survey_session_id event;
    message =
        format_traceroute_message f print conn_id survey_session_id
          (elim event.send_options.ttl [ none ↦ 0 | some ttl ↦ ttl ]) event.router_ip
          (rtt f print conn_id survey_session_id event);
    conn_id = event.conn_id;
    survey_session_id = survey_session_id;
    original_src_port = event.original_src_port;
    original_dest_addr = event.original_dest_addr;
  })

  report_all_lem :
      (es : List TrackedPacketEvent)
      → All HasTtl es
      → report_all f print conn_id survey_session_id
          (hop_message f print conn_id survey_session_id)
          es
        ≡ found (map hop_of es)
  unfolding report_all hop_message
  report_all_lem [] h = refl
  report_all_lem (e ∷ es) h = rw h.0.1 (rw (report_all_lem es h.1) refl)

  hops-append :
      (es fs : List TrackedPacketEvent) → map hop_of (es ++ fs) ≡ map hop_of es ++ map hop_of fs
  hops-append [] fs = refl
  hops-append (e ∷ es) fs = ap (λ ms. hop_of e ∷ ms) (hops-append es fs)

  -- Since the round began at `w`, it has reported what `h` says, and the queue is that of `h`.
  pub record Follows (w w' : Trace F) (h : Heard) : Type 0 where
    pub said : w'.messages ≡ w.messages ++ map hop_of h.reported
    pub left : w'.tracker.event_queue ≡ h.queue
    pub pending : All HasTtl h.queue

  -- A drain does just that.
  pub drain_traceroute_events-Follows :
      (w w' : Trace F) (h : Heard)
      → Follows w w' h
      → (v : Trace F) × (drain_traceroute_events f print conn_id survey_session_id w' ≡ found v)
        × Follows w v (drained conn_id h)
  unfolding drain_traceroute_events drain_events_for_conn_id
  drain_traceroute_events-Follows w w' h r =
      let shared : share_out conn_id w'.tracker.event_queue
          ≡ (own conn_id h.queue, rest conn_id h.queue) =
        ap (share_out conn_id) r.left ∙ share_out-own conn_id h.queue in
      let taken = own-All conn_id h.queue r.pending in
      (
        record w' {
          tracker = record w'.tracker { event_queue = rest conn_id h.queue };
          messages = w'.messages ++ map hop_of (own conn_id h.queue);
          n_probes_out = sub_i32 w'.n_probes_out (length (own conn_id h.queue));
        },
        simp shared (rw (report_all_lem (own conn_id h.queue) taken) refl),
        record {
          said =
              rw r.said
                (append_assoc w.messages (map hop_of h.reported) (map hop_of (own conn_id h.queue)))
              ∙ sym (ap (λ ms. w.messages ++ ms) (hops-append h.reported (own conn_id h.queue)));
          left = refl;
          pending = rest-All conn_id h.queue r.pending;
        },
      )
