-- ===== src/Probes/Run.antt =====
-- server/src/measurements.rs and server/src/data_channels.rs: the events of a session in any order, and
-- the logs against which its queues are read. An event happens at a time; the clock does not go back.
use netpoke.Prelude.{
  ℕ, ◌^◌, ◌≤◌, ◌<◌, Bool, true, false, Option, some, List, [], ◌∷◌, ◌++◌, String, String-discrete,
  if◌then◌else◌, ite,
}
use netpoke.Probes.{
  ProbePacket, TestProbePacket, MeasurementProbePacket, DirectionStats, ReceivedProbe, ReceivedBulk,
  SentProbe, Direction, client_to_server, server_to_client,
}
use netpoke.Probes.Floats.{Floats}
use netpoke.Probes.Session.{
  Session, Round, stop, idle, send, send_probe, send_bulk, handle_probe_packet, handle_bulk_packet,
  handle_testprobe_packet,
}
use netpoke.Probes.Control.{
  start_server_traffic, stop_server_traffic, stop_traceroute, start_probe_streams,
  stop_probe_streams, take_client_stats,
}
use netpoke.Probes.Streams.{send_measurement_probe, handle_measurement_probe_packet}

abbrev pub same : String → String → Bool
same s t = ite (String-discrete s t) true false

abbrev pub as_received : ProbePacket → ℕ → ReceivedProbe
as_received p now = record { seq = p.seq; sent_at_ms = p.timestamp_ms; received_at_ms = now }

abbrev pub is_from_client : Direction → Bool
is_from_client client_to_server = true
is_from_client server_to_client = false

-- A log with one more item, emptied, or left.
pub data Change (A : Type 0) : Type 0 where
  keep clear : Change A
  push : A → Change A

abbrev pub changed : {A : Type 0} → Change A → List A → List A
changed keep log = log
changed clear log = []
changed (push y) log = log ++ (y ∷ [])

abbrev pub round_change : Round ProbePacket → Change SentProbe
round_change stop = keep
round_change idle = keep
round_change (send p) = push (record { seq = p.seq; sent_at_ms = p.timestamp_ms })

module _ (f : Floats) where
  open f use {F}

  pub data Event : Type 0 where
    probe_arrives : Option ProbePacket → Event
    bulk_arrives : ℕ → Event
    testprobe_arrives : Option TestProbePacket → Event
    measurement_probe_arrives : Option MeasurementProbePacket → Event
    probe_round : Bool → Event
    bulk_round : Bool → ℕ → Bool → Event
    measurement_probe_round : Bool → Event
    traffic_starts : String → String → Event
    traffic_stops : String → Event
    traceroute_stops : String → Event
    streams_start : String → String → Option ℕ → Event
    streams_stop : String → Event
    stats_arrive : String → DirectionStats F → Event

  unfoldable pub step : Session f → Event → ℕ → Session f
  step c (probe_arrives probe) now = handle_probe_packet f c probe now
  step c (bulk_arrives size) now = handle_bulk_packet f c size now
  step c (testprobe_arrives probe) now = handle_testprobe_packet f c probe now
  step c (measurement_probe_arrives probe) now = handle_measurement_probe_packet f c probe now
  step c (probe_round is_open) now = record c {
    state = (send_probe f c.conn_id is_open now c.state).1;
  }
  step c (bulk_round is_open size is_sent) now = record c {
    state = (send_bulk f is_open size is_sent now c.state).1;
  }
  step c (measurement_probe_round is_open) now = record c {
    state = (send_measurement_probe f c.conn_id is_open now c.state).1;
  }
  step c (traffic_starts conn_id survey) now = start_server_traffic f c conn_id survey
  step c (traffic_stops conn_id) now = stop_server_traffic f c conn_id
  step c (traceroute_stops conn_id) now = stop_traceroute f c conn_id
  step c (streams_start conn_id survey max_seconds) now =
      start_probe_streams f c conn_id survey max_seconds now
  step c (streams_stop conn_id) now = stop_probe_streams f c conn_id
  step c (stats_arrive conn_id stats) now = take_client_stats f c conn_id stats

  unfoldable pub run : Session f → List (Event × ℕ) → Session f
  run c [] = c
  run c ((e, now) ∷ es) = run (step c e now) es

  -- A clock that does not go back, past the first minute of 1970 and within a `u64`.
  abbrev pub IsClocked : ℕ → List (Event × ℕ) → Type 0
  IsClocked from [] = Unit
  IsClocked from ((e, now) ∷ es) = (from ≤ now) × (60000 ≤ now) × (now < 2 ^ 64) × IsClocked now es

  -- The time of the last event, or `from`.
  abbrev pub last_time : ℕ → List (Event × ℕ) → ℕ
  last_time from [] = from
  last_time from ((e, now) ∷ es) = last_time now es

  -- What an event does to the received probes: one more, from the client of the connection, or none
  -- from now on.
  unfoldable pub probe_change : String → Event → ℕ → Change ReceivedProbe
  probe_change conn (probe_arrives (some p)) now =
      if same p.conn_id conn
      then (if is_from_client p.direction then push (as_received p now) else keep)
      else keep
  probe_change conn (traffic_starts conn_id survey) now = if same conn_id conn then clear else keep
  probe_change conn (traceroute_stops conn_id) now = if same conn_id conn then clear else keep
  probe_change conn _ now = keep

  -- And to the received bulk packets.
  unfoldable pub bulk_change : String → Event → ℕ → Change ReceivedBulk
  bulk_change conn (bulk_arrives size) now = push (record { bytes = size; received_at_ms = now })
  bulk_change conn (traffic_starts conn_id survey) now = if same conn_id conn then clear else keep
  bulk_change conn (traceroute_stops conn_id) now = if same conn_id conn then clear else keep
  bulk_change conn _ now = keep

  -- All that came since the last clearing.
  unfoldable pub logged : {A : Type 0} → (Event → ℕ → Change A) → List A → List (Event × ℕ) → List A
  logged change log [] = log
  logged change log ((e, now) ∷ es) = logged change (changed (change e now) log) es

  -- What an event does to the sent probes: one more if a round hands one to the channel.
  unfoldable pub sent_change : Session f → Event → ℕ → Change SentProbe
  sent_change c (probe_round is_open) now =
      round_change (send_probe f c.conn_id is_open now c.state).0
  sent_change c (traffic_starts conn_id survey) now = if same conn_id c.conn_id then clear else keep
  sent_change c (traceroute_stops conn_id) now = if same conn_id c.conn_id then clear else keep
  sent_change c _ now = keep

  -- All probes that were handed to the channel since the last clearing.
  unfoldable pub sent_log : Session f → List SentProbe → List (Event × ℕ) → List SentProbe
  sent_log c log [] = log
  sent_log c log ((e, now) ∷ es) = sent_log (step c e now) (changed (sent_change c e now) log) es
