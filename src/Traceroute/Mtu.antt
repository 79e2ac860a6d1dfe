-- ===== src/Traceroute/Mtu.antt =====
-- server/src/measurements.rs: `run_mtu_traceroute_round`, `drain_mtu_events` and
-- `extract_mtu_from_icmp`. A subtraction that does not fit a `usize` ends the run: it panics in a debug
-- build, and in a release build the length it wraps to is one that `resize` cannot have.
use netpoke.Prelude.{
  ℕ, zero, suc, ◌+◌, ◌-◌, ◌*◌, ◌/◌, ◌%◌, ◌^◌, Bool, true, not, Option, none, some, List, [], ◌∷◌,
  ◌++◌, String, String-discrete, ◌==◌, ltb, leb, if◌then◌else◌, ite, length,
}
use netpoke.Fault.{Outcome, found, panic, ◌>>=◌, ◌>>◌, or_panic, require, index, optional}
use netpoke.Tracker.{SendOptions, TrackedPacketEvent, drain_events_for_conn_id}
use netpoke.Probes.Floats.{Floats}
use netpoke.Traceroute.Messages.{ControlMessage, mtu_hop, mtu_traceroute_completed}
use netpoke.Traceroute.{
  Printing, Trace, Turn, meanwhile, rtt, report_all, track_testprobe, testprobe, count_up,
}

unfoldable pub extract_mtu_from_icmp : List ℕ → Outcome ℕ
extract_mtu_from_icmp icmp_packet = do
  require (leb 28 (length icmp_packet))
  icmp_type ← index icmp_packet 20
  require (icmp_type == 3)
  icmp_code ← index icmp_packet 21
  require (icmp_code == 4)
  high ← index icmp_packet 26
  low ← index icmp_packet 27
  require (ltb 0 (high * 256 + low))
  found (high * 256 + low)

-- What a packet carries besides the payload: the headers of IP, UDP and SCTP.
abbrev pub overhead : Option String → ℕ
overhead none = 0
overhead (some ip_ver) = ite (String-discrete ip_ver "ipv4") (20 + 8 + 28) (40 + 8 + 28)

abbrev pub fill : ℕ → ℕ → List ℕ
fill zero b = []
fill (suc n) b = b ∷ fill n b

-- `json.resize(target_len, 0x23)`, where the text is shorter.
unfoldable pub pad : Option String → ℕ → List ℕ → Outcome (List ℕ)
pad ip_version packet_size json =
    if ltb packet_size (overhead ip_version)
    then panic
    else found (json ++ fill (packet_size - overhead ip_version - length json) 0x23)

module _ (f : Floats) (print : Printing f.F) (conn_id survey_session_id : String) (packet_size : ℕ)
    (ip_version : Option String) where
  open f use {F}
  open print use {join, decimal, to_vec}

  unfoldable pub mtu_message : TrackedPacketEvent → Outcome (ControlMessage F)
  mtu_message event = do
    hop ← or_panic event.send_options.ttl
    mtu ← optional (extract_mtu_from_icmp event.icmp_packet)
    size ← (if ltb event.tracked_ip_length (2 ^ 32) then found event.tracked_ip_length else panic)
    found (
        mtu_hop (record {
          hop = hop;
          ip_address = event.router_ip;
          rtt_ms = rtt f print conn_id survey_session_id event;
          mtu = mtu;
          message =
              join "MTU probe hop " (join (decimal hop) (join " (size " (join (decimal size) ")")));
          conn_id = event.conn_id;
          survey_session_id = survey_session_id;
          packet_size = size;
        }))

  unfoldable pub drain_mtu_events : Trace F → Outcome (Trace F)
  drain_mtu_events w =
      let drained = drain_events_for_conn_id w.tracker conn_id in
      do
        messages ← report_all f print conn_id survey_session_id mtu_message drained.0
        found (record w { tracker = drained.1; messages = w.messages ++ messages })

  abbrev pub mtu_options : ℕ → SendOptions
  mtu_options current_ttl = record {
    ttl = some (current_ttl % 2 ^ 8);
    df_bit = some true;
    tos = none;
    flow_label = none;
    track_for_ms = 5000;
    bypass_dtls = true;
    bypass_sctp_fragmentation = true;
  }

  unfoldable pub mtu_turn : ℕ → Turn → Trace F → Outcome (Trace F)
  mtu_turn current_ttl turn w =
      let packet =
        testprobe f print conn_id survey_session_id (mtu_options current_ttl) w.state.testprobe_seq
          turn.now in
      let tracked = record w {
        state = track_testprobe f print conn_id survey_session_id turn.now w.state;
      } in
      if not turn.is_open then found (meanwhile f print conn_id survey_session_id turn w) else (do
        json ← pad ip_version packet_size (to_vec packet)
        if not turn.is_sent
            then found (meanwhile f print conn_id survey_session_id turn tracked)
            else drain_mtu_events (
                meanwhile f print conn_id survey_session_id turn
                  (record tracked { probes = tracked.probes ++ ((packet, json) ∷ []) })))

  unfoldable pub mtu_turns : (ℕ → Turn) → List ℕ → Trace F → Outcome (Trace F)
  mtu_turns turn [] w = found w
  mtu_turns turn (ttl ∷ ttls) w = do w' ← mtu_turn ttl (turn ttl) w; mtu_turns turn ttls w'

  -- The loop that waits: `n` is `drain_count`.
  unfoldable pub wait_for_mtu_events : (ℕ → Turn) → ℕ → Trace F → Outcome (Trace F)
  wait_for_mtu_events turn zero w = drain_mtu_events w
  wait_for_mtu_events turn (suc n) w = do
    drained ← drain_mtu_events w
    wait_for_mtu_events turn n (meanwhile f print conn_id survey_session_id (turn (suc n)) drained)

  abbrev pub mtu_completed : Trace F → Trace F
  mtu_completed w = record w {
    messages =
        w.messages
        ++ (mtu_traceroute_completed (record {
          conn_id = conn_id;
          survey_session_id = survey_session_id;
          packet_size = packet_size;
        })
            ∷ []);
  }

  -- `1..path_ttl` is empty where the path is not longer than one hop.
  unfoldable pub run_mtu_traceroute_round :
      ℕ → ℕ → Bool → (ℕ → Turn) → (ℕ → Turn) → Trace F → Outcome (Trace F)
  run_mtu_traceroute_round path_ttl collect_timeout_ms is_control_open turn wait w =
      if not is_control_open then found w else (do
        sent ← mtu_turns turn (count_up 1 (path_ttl - 1)) w
        waited ← wait_for_mtu_events wait (collect_timeout_ms / 500) sent
        found (mtu_completed waited))
