-- ===== src/Probes/Sent.antt =====
-- server/src/measurements.rs: what one event does to the sent probes, their map and the next number.
use netpoke.Prelude.{
  ℕ, ◌≡◌, refl, Bool, true, false, none, some, List, [], ◌∷◌, ◌++◌, String, if◌then◌else◌, arith,
  inl, inr, Bool-cases, ℕ_discrete, Map, insert,
}
use netpoke.Probes.{MeasurementState, SentProbe, minute_ago, next_u64}
use netpoke.Probes.Floats.{Floats}
use netpoke.Probes.Session.{
  Session, send_probe, send_bulk, receive_echo, receive_probe, updated, handle_probe_packet,
  handle_bulk_packet, handle_testprobe_packet, handle_testprobe_echo_packet, note_path_ttl,
  receive_testprobe_echo, trim_sent,
}
use netpoke.Probes.Control.{
  cleared, start_server_traffic, stop_server_traffic, stop_traceroute, start_probe_streams,
  stop_probe_streams, take_client_stats,
}
use netpoke.Probes.Streams.{
  send_measurement_probe, handle_measurement_probe_packet, receive_measurement_probe, with_baseline,
}
use netpoke.Probes.Run.{
  Event, probe_arrives, bulk_arrives, testprobe_arrives, measurement_probe_arrives, probe_round,
  bulk_round, measurement_probe_round, traffic_starts, traffic_stops, traceroute_stops,
  streams_start, streams_stop, stats_arrive, step, same, Change, keep, clear, push, sent_change,
  round_change,
}

-- What a change of the sent probes does to the queue and the map.
abbrev pub mirrored :
    ℕ → Change SentProbe → List SentProbe × Map ℕ SentProbe → List SentProbe × Map ℕ SentProbe
mirrored now keep kept = kept
mirrored now clear kept = ([], [])
mirrored now (push y) kept =
    trim_sent (minute_ago now) (kept.0 ++ (y ∷ [])) (insert ℕ_discrete y.seq y kept.1)

abbrev pub next_seq : ℕ → Change SentProbe → ℕ
next_seq seq keep = seq
next_seq seq clear = seq
next_seq seq (push y) = next_u64 seq

-- What is pushed has the next number and the time of the event.
abbrev pub IsNext : ℕ → ℕ → Change SentProbe → Type 0
IsNext seq now keep = Unit
IsNext seq now clear = Unit
IsNext seq now (push y) = (y.seq ≡ seq) × (y.sent_at_ms ≡ now)

IsNext-if :
    (seq now : ℕ) (b : Bool) (x y : Change SentProbe)
    → IsNext seq now x
    → IsNext seq now y
    → IsNext seq now (if b then x else y)
IsNext-if seq now true x y h k = h
IsNext-if seq now false x y h k = k

module _ (f : Floats) where
  open f use {F}

  pub sent_probes-step :
      (c : Session f) (e : Event f) (now : ℕ)
      → (step f c e now).state.sent_probes
        ≡ (mirrored now (sent_change f c e now) (c.state.sent_probes, c.state.sent_probes_map)).0
  unfolding step sent_change handle_probe_packet handle_bulk_packet updated receive_echo
      receive_probe handle_testprobe_packet handle_testprobe_echo_packet note_path_ttl
      receive_testprobe_echo send_probe send_bulk send_measurement_probe
      handle_measurement_probe_packet receive_measurement_probe with_baseline start_server_traffic
      stop_server_traffic stop_traceroute cleared start_probe_streams stop_probe_streams
      take_client_stats
  sent_probes-step c (probe_arrives none) now = ground arith
  sent_probes-step c (probe_arrives (some p)) now = ground arith
  sent_probes-step c (bulk_arrives size) now = ground arith
  sent_probes-step c (testprobe_arrives none) now = ground arith
  sent_probes-step c (testprobe_arrives (some p)) now = ground arith
  sent_probes-step c (measurement_probe_arrives none) now = ground arith
  sent_probes-step c (measurement_probe_arrives (some p)) now = ground arith
  sent_probes-step c (probe_round is_open) now = ground arith
  sent_probes-step c (bulk_round is_open size is_sent) now = ground arith
  sent_probes-step c (measurement_probe_round is_open) now = ground arith
  sent_probes-step c (traffic_starts conn_id survey) now = ground arith
  sent_probes-step c (traffic_stops conn_id) now = ground arith
  sent_probes-step c (traceroute_stops conn_id) now = ground arith
  sent_probes-step c (streams_start conn_id survey max_seconds) now = ground arith
  sent_probes-step c (streams_stop conn_id) now = ground arith
  sent_probes-step c (stats_arrive conn_id stats) now = ground arith

  pub sent_probes_map-step :
      (c : Session f) (e : Event f) (now : ℕ)
      → (step f c e now).state.sent_probes_map
        ≡ (mirrored now (sent_change f c e now) (c.state.sent_probes, c.state.sent_probes_map)).1
  unfolding step sent_change handle_probe_packet handle_bulk_packet updated receive_echo
      receive_probe handle_testprobe_packet handle_testprobe_echo_packet note_path_ttl
      receive_testprobe_echo send_probe send_bulk send_measurement_probe
      handle_measurement_probe_packet receive_measurement_probe with_baseline start_server_traffic
      stop_server_traffic stop_traceroute cleared start_probe_streams stop_probe_streams
      take_client_stats
  sent_probes_map-step c (probe_arrives none) now = ground arith
  sent_probes_map-step c (probe_arrives (some p)) now = ground arith
  sent_probes_map-step c (bulk_arrives size) now = ground arith
  sent_probes_map-step c (testprobe_arrives none) now = ground arith
  sent_probes_map-step c (testprobe_arrives (some p)) now = ground arith
  sent_probes_map-step c (measurement_probe_arrives none) now = ground arith
  sent_probes_map-step c (measurement_probe_arrives (some p)) now = ground arith
  sent_probes_map-step c (probe_round is_open) now = ground arith
  sent_probes_map-step c (bulk_round is_open size is_sent) now = ground arith
  sent_probes_map-step c (measurement_probe_round is_open) now = ground arith
  sent_probes_map-step c (traffic_starts conn_id survey) now = ground arith
  sent_probes_map-step c (traffic_stops conn_id) now = ground arith
  sent_probes_map-step c (traceroute_stops conn_id) now = ground arith
  sent_probes_map-step c (streams_start conn_id survey max_seconds) now = ground arith
  sent_probes_map-step c (streams_stop conn_id) now = ground arith
  sent_probes_map-step c (stats_arrive conn_id stats) now = ground arith

  pub probe_seq-step :
      (c : Session f) (e : Event f) (now : ℕ)
      → (step f c e now).state.probe_seq ≡ next_seq c.state.probe_seq (sent_change f c e now)
  unfolding step sent_change handle_probe_packet handle_bulk_packet updated receive_echo
      receive_probe handle_testprobe_packet handle_testprobe_echo_packet note_path_ttl
      receive_testprobe_echo send_probe send_bulk send_measurement_probe
      handle_measurement_probe_packet receive_measurement_probe with_baseline start_server_traffic
      stop_server_traffic stop_traceroute cleared start_probe_streams stop_probe_streams
      take_client_stats
  probe_seq-step c (probe_arrives none) now = ground arith
  probe_seq-step c (probe_arrives (some p)) now = ground arith
  probe_seq-step c (bulk_arrives size) now = ground arith
  probe_seq-step c (testprobe_arrives none) now = ground arith
  probe_seq-step c (testprobe_arrives (some p)) now = ground arith
  probe_seq-step c (measurement_probe_arrives none) now = ground arith
  probe_seq-step c (measurement_probe_arrives (some p)) now = ground arith
  probe_seq-step c (probe_round is_open) now = ground arith
  probe_seq-step c (bulk_round is_open size is_sent) now = ground arith
  probe_seq-step c (measurement_probe_round is_open) now = ground arith
  probe_seq-step c (traffic_starts conn_id survey) now = ground arith
  probe_seq-step c (traffic_stops conn_id) now = ground arith
  probe_seq-step c (traceroute_stops conn_id) now = ground arith
  probe_seq-step c (streams_start conn_id survey max_seconds) now = ground arith
  probe_seq-step c (streams_stop conn_id) now = ground arith
  probe_seq-step c (stats_arrive conn_id stats) now = ground arith

  send_probe-IsNext :
      (conn_id : String) (is_open : Bool) (now : ℕ) (s : MeasurementState F)
      → IsNext s.probe_seq now (round_change (send_probe f conn_id is_open now s).0)
  unfolding send_probe
  send_probe-IsNext conn_id is_open now s = elim (Bool-cases s.traffic_active) [
    | inr e ↦ rw e tt
    | inl e ↦ elim (Bool-cases is_open) [
      | inr o ↦ rw e (rw o tt)
      | inl o ↦ rw e (rw o (refl, refl))
    ]
  ]

  pub sent_change-IsNext :
      (c : Session f) (e : Event f) (now : ℕ) → IsNext c.state.probe_seq now (sent_change f c e now)
  unfolding sent_change send_probe
  sent_change-IsNext c (probe_arrives p) now = tt
  sent_change-IsNext c (bulk_arrives size) now = tt
  sent_change-IsNext c (testprobe_arrives p) now = tt
  sent_change-IsNext c (measurement_probe_arrives p) now = tt
  sent_change-IsNext c (probe_round is_open) now = send_probe-IsNext c.conn_id is_open now c.state
  sent_change-IsNext c (bulk_round is_open size is_sent) now = tt
  sent_change-IsNext c (measurement_probe_round is_open) now = tt
  sent_change-IsNext c (traffic_starts conn_id survey) now =
      IsNext-if c.state.probe_seq now (same conn_id c.conn_id) clear keep tt tt
  sent_change-IsNext c (traffic_stops conn_id) now = tt
  sent_change-IsNext c (traceroute_stops conn_id) now =
      IsNext-if c.state.probe_seq now (same conn_id c.conn_id) clear keep tt tt
  sent_change-IsNext c (streams_start conn_id survey max_seconds) now = tt
  sent_change-IsNext c (streams_stop conn_id) now = tt
  sent_change-IsNext c (stats_arrive conn_id stats) now = tt
