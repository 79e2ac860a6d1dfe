-- ===== src/Probes/Samples.antt =====
-- A session and numbers that the tests share.
use netpoke.Prelude.{ℕ, ◌+◌, ◌-◌, ◌*◌, true, ltb, max}
use netpoke.Probes.{
  MeasurementState, new, MeasurementProbePacket, client_to_server, no_feedback,
  ReceivedMeasurementProbe,
}
use netpoke.Probes.Floats.{Floats}
use netpoke.Probes.Session.{Session}
use netpoke.Probes.Control.{no_metrics}

-- Natural numbers in place of floats: a division keeps its dividend.
abbrev pub naturals : Floats
naturals = record {
  F = ℕ;
  zero = 0;
  hundred = 100;
  of_nat = λ n. n;
  of_difference = λ a b. a - b;
  add = λ a b. a + b;
  sub = λ a b. a - b;
  mul = λ a b. a * b;
  div = λ a b. a;
  sqrt = λ a. a;
  abs = λ a. a;
  max = max;
  lt = ltb;
  sort = λ xs. xs;
}

abbrev pub active_state : MeasurementState ℕ
active_state = record (new 0) { traffic_active = true; probe_streams_active = true }

abbrev pub session : Session naturals
session = record {
  conn_id = "c1";
  survey_session_id = "";
  state = active_state;
  metrics = no_metrics naturals;
}

abbrev pub measurement_probe : ℕ → MeasurementProbePacket
measurement_probe seq = record {
  seq = seq;
  sent_at_ms = 69990;
  direction = client_to_server;
  conn_id = "c1";
  feedback = no_feedback;
}

abbrev pub received_probe : ℕ → ReceivedMeasurementProbe
received_probe seq = record {
  seq = seq;
  sent_at_ms = 69990;
  received_at_ms = 70000;
  feedback = no_feedback;
}
