-- ===== src/Tracker/Tests.antt =====
-- Examples of the Tracker modules at concrete inputs.
use mathlib.Core.List.{Perm}
use netpoke.Prelude.{◌≡◌, refl, false, none, some, [], ◌∷◌, ◌++◌, arith, lookup, insert, Any, All}
use netpoke.Net.{v4, SocketAddr}
use netpoke.Icmp.{error}
use netpoke.Tracker.Matching.{Tells, match_icmp_error-receive_tracking, match_icmp_error-twice}
use netpoke.Tracker.Draining.{drain_events_for_conn_id_lem, lookup-cleanup_expired}
use netpoke.Tracker.Invariant.{
  World, sends, reports, Reach, here, next, start, Events, TellsOf, Reach-Events, Reach-drain,
}
use netpoke.Tracker.{
  SendOptions, UdpPacketInfo, IcmpInput, new, receive_tracking, match_icmp_error,
  drain_events_for_conn_id, cleanup_expired, sent_key, TrackedPacketEvent,
}

abbrev client : SocketAddr
client = record { ip = v4 10 0 0 7; port = 40000 }

abbrev options : SendOptions
options = record {
  ttl = some 3;
  df_bit = none;
  tos = none;
  flow_label = none;
  track_for_ms = 5000;
  bypass_dtls = false;
  bypass_sctp_fragmentation = false;
}

abbrev probe : UdpPacketInfo
probe = record {
  dest_addr = client;
  src_addr = none;
  udp_length = 100;
  cleartext = 1 ∷ 2 ∷ [];
  send_options = options;
  sent_at = 1000;
  conn_id = "c1";
  udp_checksum = 0xbeef;
}

abbrev report : IcmpInput
report = record {
  icmp_packet = [];
  icmp_class = error;
  is_ip6 = false;
  embedded_udp_info = record {
    src_port = 5000;
    dest_addr = client;
    udp_length = 100;
    payload_prefix = [];
    udp_checksum = 0xbeef;
  };
  router_ip = some "10.0.0.254";
  now = 1020;
}

match_icmp_error-receive_tracking_example :
    (e : TrackedPacketEvent) × ((match_icmp_error (receive_tracking new probe) report).0.event_queue
      ≡ new.event_queue ++ (e ∷ []))
    × Tells e probe report
match_icmp_error-receive_tracking_example =
    (match_icmp_error-receive_tracking new probe report
      (record { asked = omega arith; summed = omega arith })
      (record { dest = refl; length_same = refl; checksum_same = refl })).0

match_icmp_error-twice_example :
    match_icmp_error (match_icmp_error new report).0 report
    ≡ ((match_icmp_error new report).0, none)
unfolding new
match_icmp_error-twice_example = match_icmp_error-twice new report report refl

abbrev sent_world : World
sent_world = record { tracker = receive_tracking start.tracker probe; sent = probe ∷ [] }

abbrev matched_world : World
matched_world = record {
  tracker = (match_icmp_error sent_world.tracker report).0;
  sent = probe ∷ [];
}

reached : Reach start matched_world
reached = next (next (here start) (sends start probe)) (reports sent_world report)

Reach-Events_example : Events matched_world.tracker (probe ∷ [])
Reach-Events_example = Reach-Events matched_world reached

Reach-drain_example :
    All
      (λ e. Any (λ info. TellsOf e info × (info.conn_id ≡ "c1")) (probe ∷ []))
      (drain_events_for_conn_id matched_world.tracker "c1").0
Reach-drain_example = Reach-drain matched_world "c1" reached

drain_events_for_conn_id_example :
    Perm
      ((drain_events_for_conn_id matched_world.tracker "c1").0
        ++ (drain_events_for_conn_id matched_world.tracker "c1").1.event_queue)
      matched_world.tracker.event_queue
drain_events_for_conn_id_example = (drain_events_for_conn_id_lem matched_world.tracker "c1").0

lookup-cleanup_expired_example :
    (cleanup_expired (receive_tracking new probe) 6000).event_queue
    ≡ (receive_tracking new probe).event_queue
unfolding receive_tracking new insert lookup
lookup-cleanup_expired_example =
    (lookup-cleanup_expired (receive_tracking new probe) 6000 (sent_key probe) (refl, tt)).1
