-- ===== src/Traceroute/Tests.antt =====
-- Examples of the Traceroute modules at concrete inputs.
use netpoke.Prelude.{All-append, ℕ, ◌≤◌, ◌≡◌, refl, true, false, none, some, [], ◌∷◌, ◌++◌, map}
use netpoke.Fault.{found}
use netpoke.Net.{v4}
use netpoke.Tracker.{TrackedPacketEvent}
use netpoke.Probes.Samples.{naturals, active_state}
use netpoke.Traceroute.Messages.{traceroute_completed}
use netpoke.Traceroute.{Printing, Trace, Turn, run_single_traceroute_round}
use netpoke.Traceroute.Draining.{HasTtl, hop_of}
use netpoke.Traceroute.Turns.{KeepsTtl}
use netpoke.Traceroute.Rounds.{run_single_traceroute_round_lem, after_round}

abbrev plain : Printing ℕ
plain = record { join = λ s t. s; decimal = λ n. "n"; two_places = λ n. "n"; to_vec = λ p. [] }

abbrev hop : TrackedPacketEvent
hop = record {
  icmp_packet = [];
  udp_packet = [];
  tracked_ip_length = 120;
  cleartext = [];
  sent_at = 1000;
  icmp_received_at = 1020;
  send_options = record {
    ttl = some 3;
    df_bit = some true;
    tos = none;
    flow_label = none;
    track_for_ms = 5000;
    bypass_dtls = false;
    bypass_sctp_fragmentation = false;
  };
  router_ip = some "10.0.0.254";
  conn_id = "c1";
  original_src_port = 5000;
  original_dest_addr = record { ip = v4 10 0 0 7; port = 40000 };
}

abbrev turn : ℕ → Turn
turn k = record {
  is_open = true;
  now = 70000;
  is_sent = true;
  others = λ es. es ++ (hop ∷ []);
  echoed = none;
}

abbrev quiet : ℕ → Turn
quiet k = record { is_open = true; now = 70000; is_sent = true; others = λ es. es; echoed = none }

abbrev begun : Trace ℕ
begun = record {
  state = active_state;
  tracker = record { checksum_index = []; event_queue = hop ∷ []; icmp_error_callback = false };
  n_probes_out = 0;
  probes = [];
  messages = [];
}

-- The hops that are heard have a hop limit.
turn-KeepsTtl : KeepsTtl turn
turn-KeepsTtl k es h = All-append HasTtl es (hop ∷ []) h ((3, refl), tt)

run_single_traceroute_round_lem_example :
    (v : Trace ℕ) × (rounds : ℕ) × (run_single_traceroute_round naturals plain "c1" "s1" true turn
        quiet begun
      ≡ found v)
    × (rounds ≤ 4)
    × let h =
        after_round "c1" turn quiet rounds
          (record { queue = begun.tracker.event_queue; reported = [] }) in
      (v.messages
        ≡ (begun.messages ++ map (hop_of naturals plain "c1" "s1") h.reported)
          ++ (traceroute_completed (record { conn_id = "c1"; survey_session_id = "s1" }) ∷ []))
      × (v.tracker.event_queue ≡ h.queue)
run_single_traceroute_round_lem_example =
    run_single_traceroute_round_lem naturals plain "c1" "s1" turn quiet begun ((3, refl), tt)
      turn-KeepsTtl (λ k es h. h)
