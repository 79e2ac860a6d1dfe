-- ===== src/Traceroute.antt =====
-- server/src/measurements.rs: `run_single_traceroute_round` and what it calls. What happens while the
-- round sleeps (what the other tasks do to the queue, an echo that tells the length of the path), the time, and
-- the answers of the channels are arguments, one for each turn. A time is a number of milliseconds.
-- The messages are those handed to the control channel.
pub mod Messages
pub mod Mtu
pub mod Draining
pub mod Turns
pub mod Rounds
pub mod NextHop
mod Tests
use netpoke.Prelude.{
  ℕ, zero, suc, ◌+◌, ◌-◌, ◌*◌, ◌%◌, ◌^◌, Bool, true, false, not, ◌||◌, Option, none, some, List, [],
  ◌∷◌, ◌++◌, String, ℕ_discrete, ◌==◌, if◌then◌else◌, insert, length,
}
use netpoke.Fault.{Outcome, found, ◌>>=◌, or_panic}
use netpoke.Tracker.{SendOptions, TrackedPacketEvent, PacketTracker, drain_events_for_conn_id}
use netpoke.Probes.{
  MeasurementState, TestProbePacket, SentProbe, server_to_client, next_u64, minute_ago,
}
use netpoke.Probes.Floats.{Floats}
use netpoke.Probes.Session.{trim_sent, note_path_ttl}
use netpoke.Traceroute.Messages.{ControlMessage, trace_hop, traceroute_completed}

-- The standard library's formatting, and the bytes of a packet as serde_json writes it.
pub record Printing (F : Type 0) : Type 0 where
  pub join : String → String → String
  pub decimal : ℕ → String
  pub two_places : F → String
  pub to_vec : TestProbePacket → List ℕ

abbrev pub max_ttl : ℕ
max_ttl = 16

-- `2000 / TRC_DRAIN_INTERVAL_MS`
abbrev pub trace_drain_count : ℕ
trace_drain_count = 4

-- `first..` of so many items.
unfoldable pub count_up : ℕ → ℕ → List ℕ
count_up first zero = []
count_up first (suc n) = first ∷ count_up (suc first) n

-- What a round reads and writes. The number `n_probes_out` is an `i32` in two's complement.
pub record Trace (F : Type 0) : Type 0 where
  pub state : MeasurementState F
  pub tracker : PacketTracker
  pub n_probes_out : ℕ
  pub probes : List (TestProbePacket × List ℕ)
  pub messages : List (ControlMessage F)

-- What happens in a turn: is the channel open, what is the time, is the packet sent, and, while the
-- round sleeps, what the other tasks make of the queue of the events (ICMP errors add to it, and other
-- rounds and the tracking API drain it) and whether an echo tells the length of the path.
pub record Turn : Type 0 where
  pub is_open : Bool
  pub now : ℕ
  pub is_sent : Bool
  pub others : List TrackedPacketEvent → List TrackedPacketEvent
  pub echoed : Option ℕ

abbrev pub add_i32 : ℕ → ℕ → ℕ
add_i32 a b = (a + b) % 2 ^ 32

abbrev pub sub_i32 : ℕ → ℕ → ℕ
sub_i32 a b = (a + 2 ^ 32 - b % 2 ^ 32) % 2 ^ 32

module _ (f : Floats) (print : Printing f.F) (conn_id survey_session_id : String) where
  open f use {F}
  open print use {join, decimal, two_places, to_vec}

  abbrev pub noted : MeasurementState F → Option ℕ → MeasurementState F
  noted s none = s
  noted s (some ttl) = note_path_ttl f s ttl

  -- The other tasks, while the round sleeps.
  unfoldable pub meanwhile : Turn → Trace F → Trace F
  meanwhile turn w = record w {
    state = noted w.state turn.echoed;
    tracker = record w.tracker { event_queue = turn.others w.tracker.event_queue };
  }

  unfoldable pub format_traceroute_message : ℕ → Option String → F → String
  format_traceroute_message hop (some ip) rtt_ms =
      join "Hop "
        (join (decimal hop) (join " via " (join ip (join " (" (join (two_places rtt_ms) "ms)")))))
  format_traceroute_message hop none rtt_ms =
      join "Hop " (join (decimal hop) (join " received (" (join (two_places rtt_ms) "ms)")))

  -- `icmp_received_at.duration_since(sent_at)`, which stops at zero.
  abbrev pub rtt : TrackedPacketEvent → F
  rtt event = f.of_nat (event.icmp_received_at - event.sent_at)

  unfoldable pub hop_message : TrackedPacketEvent → Outcome (ControlMessage F)
  hop_message event = do
    hop ← or_panic event.send_options.ttl
    found (
        trace_hop (record {
          hop = hop;
          ip_address = event.router_ip;
          rtt_ms = rtt event;
          message = format_traceroute_message hop event.router_ip (rtt event);
          conn_id = event.conn_id;
          survey_session_id = survey_session_id;
          original_src_port = event.original_src_port;
          original_dest_addr = event.original_dest_addr;
        }))

  -- The loop over the events that were drained.
  unfoldable pub report_all :
      (TrackedPacketEvent → Outcome (ControlMessage F))
      → List TrackedPacketEvent
      → Outcome (List (ControlMessage F))
  report_all report [] = found []
  report_all report (event ∷ events) = do
    message ← report event
    messages ← report_all report events
    found (message ∷ messages)

  -- The number of events is subtracted by the caller: here both are one step.
  unfoldable pub drain_traceroute_events : Trace F → Outcome (Trace F)
  drain_traceroute_events w =
      let drained = drain_events_for_conn_id w.tracker conn_id in
      do
        messages ← report_all hop_message drained.0
        found (record w {
          tracker = drained.1;
          messages = w.messages ++ messages;
          n_probes_out = sub_i32 w.n_probes_out (length drained.0);
        })

  -- The next sequence number of a test probe, which is kept like those of the probes.
  unfoldable pub track_testprobe : ℕ → MeasurementState F → MeasurementState F
  track_testprobe now s =
      let sent_testprobe : SentProbe = record { seq = s.testprobe_seq; sent_at_ms = now } in
      let kept =
        trim_sent (minute_ago now) (s.sent_testprobes ++ (sent_testprobe ∷ []))
          (insert ℕ_discrete s.testprobe_seq sent_testprobe s.sent_testprobes_map) in
      record s {
        testprobe_seq = next_u64 s.testprobe_seq;
        sent_testprobes = kept.0;
        sent_testprobes_map = kept.1;
      }

  abbrev pub testprobe : SendOptions → ℕ → ℕ → TestProbePacket
  testprobe options seq now = record {
    test_seq = seq;
    timestamp_ms = now;
    direction = server_to_client;
    send_options = some options;
    conn_id = conn_id;
  }

  abbrev pub traceroute_options : ℕ → SendOptions
  traceroute_options current_ttl = record {
    ttl = some current_ttl;
    df_bit = some true;
    tos = none;
    flow_label = none;
    track_for_ms = 5000;
    bypass_dtls = false;
    bypass_sctp_fragmentation = false;
  }

  -- One turn of the loop over the hop limits.
  unfoldable pub traceroute_turn : ℕ → Turn → Trace F → Outcome (Trace F)
  traceroute_turn current_ttl turn w =
      let packet = testprobe (traceroute_options current_ttl) w.state.testprobe_seq turn.now in
      let tracked = record w { state = track_testprobe turn.now w.state } in
      if not turn.is_open
      then found (meanwhile turn w)
      else if not turn.is_sent
      then found (meanwhile turn tracked)
      else drain_traceroute_events (
          meanwhile turn (record tracked {
            probes = tracked.probes ++ ((packet, to_vec packet) ∷ []);
            n_probes_out = add_i32 tracked.n_probes_out 1;
          }))

  unfoldable pub traceroute_turns : (ℕ → Turn) → List ℕ → Trace F → Outcome (Trace F)
  traceroute_turns turn [] w = found w
  traceroute_turns turn (ttl ∷ ttls) w = do
    w' ← traceroute_turn ttl (turn ttl) w
    traceroute_turns turn ttls w'

  abbrev pub is_known : Option ℕ → Bool
  is_known none = false
  is_known (some n) = true

  -- The loop that waits for the last events: `n` is `trace_drain_count`.
  unfoldable pub wait_for_events : (ℕ → Turn) → ℕ → Trace F → Outcome (Trace F)
  wait_for_events turn zero w = do
    drained ← drain_traceroute_events w
    found (meanwhile (turn zero) drained)
  wait_for_events turn (suc n) w = do
    drained ← drain_traceroute_events w
    let slept = meanwhile (turn (suc n)) drained
    if is_known slept.state.path_ttl || (slept.n_probes_out == 0)
        then found slept
        else wait_for_events turn n slept

  abbrev pub completed : Trace F → Trace F
  completed w = record w {
    messages =
        w.messages
        ++ (traceroute_completed
              (record { conn_id = conn_id; survey_session_id = survey_session_id })
            ∷ []);
  }

  unfoldable pub run_single_traceroute_round :
      Bool → (ℕ → Turn) → (ℕ → Turn) → Trace F → Outcome (Trace F)
  run_single_traceroute_round is_control_open turn wait w =
      if not is_control_open then found w else (do
        sent ← traceroute_turns turn (count_up 1 max_ttl) (record w { n_probes_out = 0 })
        waited ← wait_for_events wait trace_drain_count sent
        found (completed waited))
