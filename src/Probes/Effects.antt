-- ===== src/Probes/Effects.antt =====
-- server/src/measurements.rs: what one event does to the queues that arrivals fill.
use netpoke.Prelude.{ℕ, ◌≡◌, none, some, List, [], ◌∷◌, ◌++◌, arith}
use netpoke.Probes.{minute_ago}
use netpoke.Probes.Floats.{Floats}
use netpoke.Probes.Window.{trim}
use netpoke.Probes.Session.{
  Session, send_probe, send_bulk, receive_echo, receive_probe, updated, handle_probe_packet,
  handle_bulk_packet, handle_testprobe_packet, handle_testprobe_echo_packet, note_path_ttl,
  receive_testprobe_echo,
}
use netpoke.Probes.Control.{
  cleared, start_server_traffic, stop_server_traffic, stop_traceroute, start_probe_streams,
  stop_probe_streams, take_client_stats,
}
use netpoke.Probes.Streams.{
  send_measurement_probe, handle_measurement_probe_packet, receive_measurement_probe, with_baseline,
}
use netpoke.Probes.Run.{
  Event, probe_arrives, bulk_arrives, testprobe_arrives, measurement_probe_arrives, probe_round,
  bulk_round, measurement_probe_round, traffic_starts, traffic_stops, traceroute_stops,
  streams_start, streams_stop, stats_arrive, step, Change, keep, clear, push, probe_change,
  bulk_change,
}

-- The same change on a queue that forgets what is older than a minute.
abbrev pub queued : {A : Type 0} → (A → ℕ) → ℕ → Change A → List A → List A
queued time now keep queue = queue
queued time now clear queue = []
queued time now (push y) queue = trim time (minute_ago now) (queue ++ (y ∷ []))

module _ (f : Floats) where
  open f use {F}

  pub received_probes-step :
      (c : Session f) (e : Event f) (now : ℕ)
      → (step f c e now).state.received_probes
        ≡ queued
            (λ p. p.received_at_ms)
            now
            (probe_change f c.conn_id e now)
            c.state.received_probes
  unfolding step probe_change handle_probe_packet handle_bulk_packet updated receive_echo
      receive_probe handle_testprobe_packet handle_testprobe_echo_packet note_path_ttl
      receive_testprobe_echo send_probe send_bulk send_measurement_probe
      handle_measurement_probe_packet receive_measurement_probe with_baseline start_server_traffic
      stop_server_traffic stop_traceroute cleared start_probe_streams stop_probe_streams
      take_client_stats
  received_probes-step c (probe_arrives none) now = ground arith
  received_probes-step c (probe_arrives (some p)) now = ground arith
  received_probes-step c (bulk_arrives size) now = ground arith
  received_probes-step c (testprobe_arrives none) now = ground arith
  received_probes-step c (testprobe_arrives (some p)) now = ground arith
  received_probes-step c (measurement_probe_arrives none) now = ground arith
  received_probes-step c (measurement_probe_arrives (some p)) now = ground arith
  received_probes-step c (probe_round is_open) now = ground arith
  received_probes-step c (bulk_round is_open size is_sent) now = ground arith
  received_probes-step c (measurement_probe_round is_open) now = ground arith
  received_probes-step c (traffic_starts conn_id survey) now = ground arith
  received_probes-step c (traffic_stops conn_id) now = ground arith
  received_probes-step c (traceroute_stops conn_id) now = ground arith
  received_probes-step c (streams_start conn_id survey max_seconds) now = ground arith
  received_probes-step c (streams_stop conn_id) now = ground arith
  received_probes-step c (stats_arrive conn_id stats) now = ground arith

  pub received_bulk-step :
      (c : Session f) (e : Event f) (now : ℕ)
      → (step f c e now).state.received_bulk_bytes
        ≡ queued
            (λ b. b.received_at_ms)
            now
            (bulk_change f c.conn_id e now)
            c.state.received_bulk_bytes
  unfolding step bulk_change handle_probe_packet handle_bulk_packet updated receive_echo
      receive_probe handle_testprobe_packet handle_testprobe_echo_packet note_path_ttl
      receive_testprobe_echo send_probe send_bulk send_measurement_probe
      handle_measurement_probe_packet receive_measurement_probe with_baseline start_server_traffic
      stop_server_traffic stop_traceroute cleared start_probe_streams stop_probe_streams
      take_client_stats
  received_bulk-step c (probe_arrives none) now = ground arith
  received_bulk-step c (probe_arrives (some p)) now = ground arith
  received_bulk-step c (bulk_arrives size) now = ground arith
  received_bulk-step c (testprobe_arrives none) now = ground arith
  received_bulk-step c (testprobe_arrives (some p)) now = ground arith
  received_bulk-step c (measurement_probe_arrives none) now = ground arith
  received_bulk-step c (measurement_probe_arrives (some p)) now = ground arith
  received_bulk-step c (probe_round is_open) now = ground arith
  received_bulk-step c (bulk_round is_open size is_sent) now = ground arith
  received_bulk-step c (measurement_probe_round is_open) now = ground arith
  received_bulk-step c (traffic_starts conn_id survey) now = ground arith
  received_bulk-step c (traffic_stops conn_id) now = ground arith
  received_bulk-step c (traceroute_stops conn_id) now = ground arith
  received_bulk-step c (streams_start conn_id survey max_seconds) now = ground arith
  received_bulk-step c (streams_stop conn_id) now = ground arith
  received_bulk-step c (stats_arrive conn_id stats) now = ground arith

  pub conn_id-step : (c : Session f) (e : Event f) (now : ℕ) → (step f c e now).conn_id ≡ c.conn_id
  unfolding step handle_probe_packet handle_bulk_packet updated receive_echo receive_probe
      handle_testprobe_packet handle_testprobe_echo_packet note_path_ttl receive_testprobe_echo
      send_probe send_bulk send_measurement_probe handle_measurement_probe_packet
      receive_measurement_probe with_baseline start_server_traffic stop_server_traffic
      stop_traceroute cleared start_probe_streams stop_probe_streams take_client_stats
  conn_id-step c (probe_arrives none) now = ground arith
  conn_id-step c (probe_arrives (some p)) now = ground arith
  conn_id-step c (bulk_arrives size) now = ground arith
  conn_id-step c (testprobe_arrives none) now = ground arith
  conn_id-step c (testprobe_arrives (some p)) now = ground arith
  conn_id-step c (measurement_probe_arrives none) now = ground arith
  conn_id-step c (measurement_probe_arrives (some p)) now = ground arith
  conn_id-step c (probe_round is_open) now = ground arith
  conn_id-step c (bulk_round is_open size is_sent) now = ground arith
  conn_id-step c (measurement_probe_round is_open) now = ground arith
  conn_id-step c (traffic_starts conn_id survey) now = ground arith
  conn_id-step c (traffic_stops conn_id) now = ground arith
  conn_id-step c (traceroute_stops conn_id) now = ground arith
  conn_id-step c (streams_start conn_id survey max_seconds) now = ground arith
  conn_id-step c (streams_stop conn_id) now = ground arith
  conn_id-step c (stats_arrive conn_id stats) now = ground arith
