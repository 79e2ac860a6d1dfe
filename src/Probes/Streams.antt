-- ===== src/Probes/Streams.antt =====
-- server/src/measurements.rs: the probe streams. `start_measurement_probe_sender` is here its round,
-- `handle_measurement_probe_packet` the handler, and `calculate_probe_stream_stats` the statistics of
-- the last second, whose indices may be out of range. The constants are of common/src/protocol.rs.
use netpoke.Prelude.{
  ℕ, ◌+◌, ◌-◌, ◌*◌, ◌/◌, ◌%◌, ◌^◌, Bool, false, not, ◌||◌, Option, none, some, List, [], ◌∷◌, ◌++◌,
  map, ltb, leb, if◌then◌else◌, max, min, length, get_or, String,
}
use netpoke.Fault.{Outcome, found, ◌>>=◌, index}
use netpoke.Probes.{
  MeasurementState, MeasurementProbePacket, ReceivedMeasurementProbe, DirectionStats, Spread,
  server_to_client, next_u64,
}
use netpoke.Probes.Floats.{Floats}
use netpoke.Probes.Window.{trim, recent}
use netpoke.Probes.Counting.{min_seq, max_seq}
use netpoke.Probes.Metrics.{reorder_rate}
use netpoke.Probes.Session.{Session, Round, stop, idle, send, is_own}

abbrev pub baseline_min_samples : ℕ
baseline_min_samples = 10

abbrev pub probe_stats_window_ms : ℕ
probe_stats_window_ms = 2000

abbrev pub probe_feedback_window_ms : ℕ
probe_feedback_window_ms = 1000

-- `started_at.elapsed() >= max_duration`, where both are set.
abbrev pub is_over : Option ℕ → Option ℕ → ℕ → Bool
is_over (some started_at) (some max_duration) now = leb max_duration (now - started_at)
is_over (some started_at) none now = false
is_over none max_duration now = false

-- The loop over the received probes that counts, in one pass, the probes in the feedback window and
-- those of them that come after a greater sequence number.
unfoldable pub count_recent : ℕ → ℕ → ℕ → ℕ → List ReceivedMeasurementProbe → ℕ × ℕ
count_recent cutoff count reorders last_seq [] = (count, reorders)
count_recent cutoff count reorders last_seq (p ∷ ps) =
    count_recent cutoff (if leb cutoff p.received_at_ms then (count + 1) % 2 ^ 32 else count)
      (if leb cutoff p.received_at_ms
        then (if ltb p.seq last_seq then (reorders + 1) % 2 ^ 32 else reorders)
        else reorders)
      (if leb cutoff p.received_at_ms then max last_seq p.seq else last_seq) ps

module _ (f : Floats) where
  open f use {F, hundred, of_nat, of_difference, add, sub, mul, div, abs, lt, sort}

  unfoldable pub send_measurement_probe :
      String → Bool → ℕ → MeasurementState F → Round MeasurementProbePacket × MeasurementState F
  send_measurement_probe conn_id is_open now s =
      if not s.probe_streams_active
      then (stop, s)
      else if is_over s.probe_streams_started_at s.max_measuring_duration now
      then (stop, record s { probe_streams_active = false })
      else (
        (if not is_open
            then idle
            else send (record {
              seq = s.measurement_probe_seq;
              sent_at_ms = now;
              direction = server_to_client;
              conn_id = conn_id;
              feedback = s.last_feedback;
            })),
        record s { measurement_probe_seq = next_u64 s.measurement_probe_seq },
      )

  unfoldable pub baseline_or : MeasurementState F → F → F
  baseline_or s default =
      if ltb 0 s.baseline_delay_count
      then div s.baseline_delay_sum (of_nat s.baseline_delay_count)
      else default

  -- Is the delay near enough to the baseline, or the baseline still young?
  unfoldable pub is_included : MeasurementState F → F → Bool
  is_included s delay =
      ltb s.baseline_delay_count baseline_min_samples
      || lt (abs (sub delay (baseline_or s delay)))
          (f.max (mul (abs (baseline_or s delay)) (of_nat 3)) (of_nat 100))

  unfoldable pub with_baseline : MeasurementState F → F → MeasurementState F
  with_baseline s delay =
      if is_included s delay
      then record s {
        baseline_delay_sum = add s.baseline_delay_sum delay;
        baseline_delay_count = next_u64 s.baseline_delay_count;
      }
      else s

  unfoldable pub receive_measurement_probe :
      MeasurementProbePacket → ℕ → MeasurementState F → MeasurementState F
  receive_measurement_probe probe now s =
      let received : ReceivedMeasurementProbe = record {
        seq = probe.seq;
        sent_at_ms = probe.sent_at_ms;
        received_at_ms = now;
        feedback = probe.feedback;
      } in
      let kept =
        trim (λ p. p.received_at_ms) (now - probe_stats_window_ms)
          (s.received_measurement_probes ++ (received ∷ [])) in
      let counts = count_recent (now - probe_feedback_window_ms) 0 0 0 kept in
      record (with_baseline s (of_difference now probe.sent_at_ms)) {
        received_measurement_probes = kept;
        last_feedback = record {
          highest_seq = max s.last_feedback.highest_seq probe.seq;
          highest_seq_received_at_ms = now;
          recent_count = counts.0;
          recent_reorders = counts.1;
        };
      }

  unfoldable pub handle_measurement_probe_packet :
      Session f → Option MeasurementProbePacket → ℕ → Session f
  handle_measurement_probe_packet c none now = c
  handle_measurement_probe_packet c (some probe) now =
      if not (is_own f c probe.conn_id)
      then c
      else if not c.state.probe_streams_active
      then c
      else record c { state = receive_measurement_probe probe now c.state }

  -- The absolute differences of neighbours.
  unfoldable pub jitters : List F → List F
  jitters [] = []
  jitters (x ∷ []) = []
  jitters (x ∷ y ∷ xs) = abs (sub y x) ∷ jitters (y ∷ xs)

  abbrev pub no_spread : Spread F
  no_spread = record { p50 = f.zero; p99 = f.zero; least = f.zero; greatest = f.zero }

  -- `.first().unwrap_or(&0.0)` and `.last().unwrap_or(&0.0)`
  abbrev pub first_or_zero : List F → F
  first_or_zero xs = get_or xs 0 f.zero

  abbrev pub last_or_zero : List F → F
  last_or_zero xs = get_or xs (length xs - 1) f.zero

  unfoldable pub delay_spread : List F → Outcome (Spread F)
  delay_spread xs = do
    p50 ← index xs (length xs / 2)
    p99 ← index xs (min (length xs * 99 / 100) (length xs - 1))
    found (record { p50 = p50; p99 = p99; least = first_or_zero xs; greatest = last_or_zero xs })

  unfoldable pub jitter_spread : List F → Outcome (Spread F)
  jitter_spread [] = found no_spread
  jitter_spread (x ∷ xs) = do
    p50 ← index (x ∷ xs) (max (length (x ∷ xs)) 1 / 2)
    p99 ← index (x ∷ xs) (max (length (x ∷ xs)) 1 * 99 / 100)
    found (record {
      p50 = p50;
      p99 = p99;
      least = first_or_zero (x ∷ xs);
      greatest = last_or_zero (x ∷ xs);
    })

  unfoldable pub stream_loss_rate : List ℕ → F
  stream_loss_rate [] = f.zero
  stream_loss_rate (seq ∷ seqs) =
      let expected = of_nat (next_u64 (max_seq seq seqs - min_seq seq seqs)) in
      if lt f.zero expected
      then f.max (mul (div (sub expected (of_nat (length (seq ∷ seqs)))) expected) hundred) f.zero
      else f.zero

  abbrev pub no_stats : DirectionStats F
  no_stats = record {
    delay_deviation_ms = no_spread;
    rtt_ms = no_spread;
    jitter_ms = no_spread;
    loss_rate = f.zero;
    reorder_rate = f.zero;
    probe_count = 0;
    baseline_delay_ms = f.zero;
  }

  abbrev pub delay : ReceivedMeasurementProbe → F
  delay p = of_difference p.received_at_ms p.sent_at_ms

  -- The statistics of the probes of the feedback window, if there are any.
  unfoldable pub stats_of : F → List ReceivedMeasurementProbe → Outcome (DirectionStats F)
  stats_of baseline [] = found no_stats
  stats_of baseline (p ∷ ps) = do
    delays ← delay_spread (sort (map (λ q. sub (delay q) baseline) (p ∷ ps)))
    jitter ← jitter_spread (sort (jitters (map delay (p ∷ ps))))
    found (record {
      delay_deviation_ms = delays;
      rtt_ms = no_spread;
      jitter_ms = jitter;
      loss_rate = stream_loss_rate (map (λ q. q.seq) (p ∷ ps));
      reorder_rate = reorder_rate f (map (λ q. q.seq) (p ∷ ps));
      probe_count = length (p ∷ ps) % 2 ^ 32;
      baseline_delay_ms = baseline;
    })

  unfoldable pub calculate_probe_stream_stats : MeasurementState F → ℕ → Outcome (DirectionStats F)
  calculate_probe_stream_stats s now = stats_of (baseline_or s f.zero) (
      recent (λ p. p.received_at_ms) (now - probe_feedback_window_ms) s.received_measurement_probes)
