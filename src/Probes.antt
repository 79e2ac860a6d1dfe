-- ===== src/Probes.antt =====
-- server/src/state.rs and server/src/measurements.rs: what a session measures. `MeasurementState` is
-- the record of server/src/state.rs; the packets and the statistics are of common/src/protocol.rs. The
-- type of floating-point numbers is a parameter `F`.
pub mod Floats
pub mod Window
pub mod Counting
pub mod Metrics
pub mod Session
pub mod Loss
pub mod Control
pub mod Streams
pub mod Run
pub mod Effects
pub mod History
pub mod Mirror
pub mod Sent
pub mod Echoes
pub mod Stats
pub mod Feedback
pub mod Samples
mod Tests
use netpoke.Prelude.{
  ℕ, ◌+◌, ◌-◌, ◌%◌, ◌^◌, Bool, true, false, Option, none, some, List, [], ◌∷◌, String, Map,
}
use netpoke.Tracker.{SendOptions}

pub data Direction : Type 0 where
  client_to_server server_to_client : Direction

pub record ProbePacket : Type 0 where
  pub seq : ℕ
  pub timestamp_ms : ℕ
  pub direction : Direction
  pub send_options : Option SendOptions
  pub conn_id : String

pub record TestProbePacket : Type 0 where
  pub test_seq : ℕ
  pub timestamp_ms : ℕ
  pub direction : Direction
  pub send_options : Option SendOptions
  pub conn_id : String

pub record ProbeFeedback : Type 0 where
  pub highest_seq : ℕ
  pub highest_seq_received_at_ms : ℕ
  pub recent_count : ℕ
  pub recent_reorders : ℕ

pub record MeasurementProbePacket : Type 0 where
  pub seq : ℕ
  pub sent_at_ms : ℕ
  pub direction : Direction
  pub conn_id : String
  pub feedback : ProbeFeedback

pub record ReceivedProbe : Type 0 where
  pub seq : ℕ
  pub sent_at_ms : ℕ
  pub received_at_ms : ℕ

pub record ReceivedBulk : Type 0 where
  pub bytes : ℕ
  pub received_at_ms : ℕ

pub record SentBulk : Type 0 where
  pub bytes : ℕ
  pub sent_at_ms : ℕ

pub record SentProbe : Type 0 where
  pub seq : ℕ
  pub sent_at_ms : ℕ

pub record EchoedProbe : Type 0 where
  pub seq : ℕ
  pub sent_at_ms : ℕ
  pub echoed_at_ms : ℕ

pub record ReceivedMeasurementProbe : Type 0 where
  pub seq : ℕ
  pub sent_at_ms : ℕ
  pub received_at_ms : ℕ
  pub feedback : ProbeFeedback

-- `[f64; 4]`: median, 99th percentile, least, greatest.
pub record Spread (F : Type 0) : Type 0 where
  pub p50 : F
  pub p99 : F
  pub least : F
  pub greatest : F

pub record DirectionStats (F : Type 0) : Type 0 where
  pub delay_deviation_ms : Spread F
  pub rtt_ms : Spread F
  pub jitter_ms : Spread F
  pub loss_rate : F
  pub reorder_rate : F
  pub probe_count : ℕ
  pub baseline_delay_ms : F

-- An `Instant` and a `Duration` are numbers of milliseconds.
pub record MeasurementState (F : Type 0) : Type 0 where
  pub probe_seq : ℕ
  pub testprobe_seq : ℕ
  pub current_ttl : ℕ
  pub path_ttl : Option ℕ
  pub stop_traceroute : Bool
  pub traceroute_started_at : Option ℕ
  pub traffic_active : Bool
  pub bulk_bytes_sent : ℕ
  pub received_probes : List ReceivedProbe
  pub received_bulk_bytes : List ReceivedBulk
  pub sent_bulk_packets : List SentBulk
  pub sent_probes : List SentProbe
  pub sent_probes_map : Map ℕ SentProbe
  pub echoed_probes : List EchoedProbe
  pub sent_testprobes : List SentProbe
  pub sent_testprobes_map : Map ℕ SentProbe
  pub echoed_testprobes : List EchoedProbe
  pub last_received_seq : Option ℕ
  pub probe_streams_active : Bool
  pub probe_streams_started_at : Option ℕ
  pub max_measuring_duration : Option ℕ
  pub measurement_probe_seq : ℕ
  pub received_measurement_probes : List ReceivedMeasurementProbe
  pub probe_stats : List (DirectionStats F)
  pub client_reported_s2c_stats : Option (DirectionStats F)
  pub baseline_delay_sum : F
  pub baseline_delay_count : ℕ
  pub last_feedback : ProbeFeedback

abbrev pub no_feedback : ProbeFeedback
no_feedback = record {
  highest_seq = 0;
  highest_seq_received_at_ms = 0;
  recent_count = 0;
  recent_reorders = 0;
}

-- `MeasurementState::new`, with the `0.0` of the sum.
abbrev pub new : {F : Type 0} → F → MeasurementState F
new zero = record {
  probe_seq = 0;
  testprobe_seq = 0;
  current_ttl = 1;
  path_ttl = none;
  stop_traceroute = false;
  traceroute_started_at = none;
  traffic_active = false;
  bulk_bytes_sent = 0;
  received_probes = [];
  received_bulk_bytes = [];
  sent_bulk_packets = [];
  sent_probes = [];
  sent_probes_map = [];
  echoed_probes = [];
  sent_testprobes = [];
  sent_testprobes_map = [];
  echoed_testprobes = [];
  last_received_seq = none;
  probe_streams_active = false;
  probe_streams_started_at = none;
  max_measuring_duration = none;
  measurement_probe_seq = 0;
  received_measurement_probes = [];
  probe_stats = [];
  client_reported_s2c_stats = none;
  baseline_delay_sum = zero;
  baseline_delay_count = 0;
  last_feedback = no_feedback;
}

-- `+= 1` and `-` on a `u64`, which wrap in a release build.
abbrev pub next_u64 : ℕ → ℕ
next_u64 n = (n + 1) % 2 ^ 64

abbrev pub sub_u64 : ℕ → ℕ → ℕ
sub_u64 a b = (a + 2 ^ 64 - b) % 2 ^ 64

-- `now_ms - 60_000`
abbrev pub minute_ago : ℕ → ℕ
minute_ago now = sub_u64 now 60000
