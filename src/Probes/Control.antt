-- ===== src/Probes/Control.antt =====
-- server/src/data_channels.rs: the control messages of a client that change what is measured. Each has
-- the connection it is for; one for another connection is ignored. The tasks that a message starts are
-- the rounds of Probes/Session and Probes/Streams.
use netpoke.Prelude.{
  ℕ, ◌*◌, true, false, not, Option, none, some, [], String, String-discrete, if◌then◌else◌, ite,
}
use netpoke.Probes.{MeasurementState, DirectionStats, no_feedback}
use netpoke.Probes.Floats.{Floats}
use netpoke.Probes.Metrics.{ClientMetrics, PerWindow}
use netpoke.Probes.Session.{Session, is_own}

module _ (f : Floats) where
  open f use {F, zero}

  -- `ClientMetrics::default()`
  abbrev no_windows : PerWindow F
  no_windows = record { second = zero; ten_seconds = zero; minute = zero }

  unfoldable pub no_metrics : ClientMetrics F
  no_metrics = record {
    c2s_throughput = no_windows;
    s2c_throughput = no_windows;
    c2s_delay_avg = no_windows;
    s2c_delay_avg = no_windows;
    c2s_jitter = no_windows;
    s2c_jitter = no_windows;
    c2s_loss_rate = no_windows;
    s2c_loss_rate = no_windows;
    c2s_reorder_rate = no_windows;
    s2c_reorder_rate = no_windows;
  }

  -- `if !msg.survey_session_id.is_empty() { … = msg.survey_session_id }`
  abbrev pub renamed : String → String → String
  renamed old new = ite (String-discrete new "") old new

  -- The six queues that the messages clear.
  unfoldable pub cleared : MeasurementState F → MeasurementState F
  cleared s = record s {
    received_probes = [];
    received_bulk_bytes = [];
    sent_bulk_packets = [];
    sent_probes = [];
    sent_probes_map = [];
    echoed_probes = [];
  }

  unfoldable pub start_server_traffic : Session f → String → String → Session f
  start_server_traffic c conn_id survey = if not (is_own f c conn_id) then c else record c {
    survey_session_id = renamed c.survey_session_id survey;
    state = cleared (record c.state { traffic_active = true });
    metrics = no_metrics;
  }

  unfoldable pub stop_server_traffic : Session f → String → Session f
  stop_server_traffic c conn_id =
      if not (is_own f c conn_id)
      then c
      else record c { state = record c.state { traffic_active = false } }

  unfoldable pub stop_traceroute : Session f → String → Session f
  stop_traceroute c conn_id = if not (is_own f c conn_id) then c else record c {
    state = cleared (record c.state { stop_traceroute = true });
    metrics = no_metrics;
  }

  -- `max_seconds` is what the magic key's configuration allows, if there is one.
  unfoldable pub start_probe_streams : Session f → String → String → Option ℕ → ℕ → Session f
  start_probe_streams c conn_id survey max_seconds now =
      if not (is_own f c conn_id) then c else record c {
        survey_session_id = renamed c.survey_session_id survey;
        state = record c.state {
          probe_streams_active = true;
          probe_streams_started_at = some now;
          max_measuring_duration = elim max_seconds [
            | none ↦ none
            | some seconds ↦ some (seconds * 1000)
          ];
          measurement_probe_seq = 0;
          received_measurement_probes = [];
          probe_stats = [];
          baseline_delay_sum = zero;
          baseline_delay_count = 0;
          last_feedback = no_feedback;
          client_reported_s2c_stats = none;
        };
      }

  unfoldable pub stop_probe_streams : Session f → String → Session f
  stop_probe_streams c conn_id =
      if not (is_own f c conn_id)
      then c
      else record c { state = record c.state { probe_streams_active = false } }

  unfoldable pub take_client_stats : Session f → String → DirectionStats F → Session f
  take_client_stats c conn_id stats =
      if not (is_own f c conn_id)
      then c
      else record c { state = record c.state { client_reported_s2c_stats = some stats } }
