-- ===== src/Probes/Metrics.antt =====
-- server/src/measurements.rs: `calculate_metrics`, with `ClientMetrics` of common/src/metrics.rs.
use netpoke.Prelude.{ℕ, ◌+◌, ◌-◌, ◌%◌, ◌^◌, List, [], ◌∷◌, map, length, leb, if◌then◌else◌}
use netpoke.Probes.{MeasurementState, ReceivedProbe, EchoedProbe, ReceivedBulk, SentBulk, next_u64}
use netpoke.Probes.Floats.{Floats}
use netpoke.Probes.Window.{recent}
use netpoke.Probes.Counting.{count_reorders, min_seq, max_seq}

-- `[f64; 3]`: the windows of 1 s, 10 s and 60 s.
pub record PerWindow (F : Type 0) : Type 0 where
  pub second : F
  pub ten_seconds : F
  pub minute : F

pub record ClientMetrics (F : Type 0) : Type 0 where
  pub c2s_throughput : PerWindow F
  pub s2c_throughput : PerWindow F
  pub c2s_delay_avg : PerWindow F
  pub s2c_delay_avg : PerWindow F
  pub c2s_jitter : PerWindow F
  pub s2c_jitter : PerWindow F
  pub c2s_loss_rate : PerWindow F
  pub s2c_loss_rate : PerWindow F
  pub c2s_reorder_rate : PerWindow F
  pub s2c_reorder_rate : PerWindow F

-- `iter().sum()` of `u64`.
unfoldable pub sum_u64 : List ℕ → ℕ
sum_u64 [] = 0
sum_u64 (n ∷ ns) = (n + sum_u64 ns) % 2 ^ 64

module _ (f : Floats) where
  open f use {F, zero, hundred, of_nat, of_difference, add, sub, mul, div, sqrt, max}

  -- `iter().sum::<f64>()`, from the left.
  unfoldable pub sum_from : F → List F → F
  sum_from acc [] = acc
  sum_from acc (x ∷ xs) = sum_from (add acc x) xs

  unfoldable pub mean : List F → F
  mean xs = div (sum_from zero xs) (of_nat (length xs))

  abbrev pub squared_deviation : F → F → F
  squared_deviation avg d = mul (sub d avg) (sub d avg)

  unfoldable pub jitter : List F → F
  jitter delays = sqrt (mean (map (squared_deviation (mean delays)) delays))

  -- The share of the sequence numbers in the range that are not there, if two packets came.
  unfoldable pub loss_rate : List ℕ → F
  loss_rate [] = zero
  loss_rate (seq ∷ seqs) =
      if leb 2 (length (seq ∷ seqs))
      then (let expected = of_nat (next_u64 (max_seq seq seqs - min_seq seq seqs)) in
          max (mul (div (sub expected (of_nat (length (seq ∷ seqs)))) expected) hundred) zero)
      else zero

  unfoldable pub reorder_rate : List ℕ → F
  reorder_rate seqs = mul (div (of_nat (count_reorders 0 seqs)) (of_nat (length seqs))) hundred

  -- `if !recent.is_empty()`: else the default stays.
  abbrev pub if_any : {A : Type 0} → List A → F → F
  if_any [] x = zero
  if_any (a ∷ rest) x = x

  unfoldable pub throughput : ℕ → List ℕ → F
  throughput window_ms sizes =
      if_any sizes (div (of_nat (sum_u64 sizes)) (div (of_nat window_ms) (of_nat 1000)))

  abbrev pub per_window : (ℕ → F) → PerWindow F
  per_window g = record { second = g 1000; ten_seconds = g 10000; minute = g 60000 }

  -- The probes received in a window, and the probes whose echo the client dates in it.
  unfoldable pub probes_in : MeasurementState F → ℕ → ℕ → List ReceivedProbe
  probes_in s now window_ms = recent (λ p. p.received_at_ms) (now - window_ms) s.received_probes

  unfoldable pub echoes_in : MeasurementState F → ℕ → ℕ → List EchoedProbe
  echoes_in s now window_ms = recent (λ p. p.echoed_at_ms) (now - window_ms) s.echoed_probes

  unfoldable pub bulk_in : MeasurementState F → ℕ → ℕ → List ReceivedBulk
  bulk_in s now window_ms = recent (λ b. b.received_at_ms) (now - window_ms) s.received_bulk_bytes

  unfoldable pub sent_bulk_in : MeasurementState F → ℕ → ℕ → List SentBulk
  sent_bulk_in s now window_ms = recent (λ b. b.sent_at_ms) (now - window_ms) s.sent_bulk_packets

  abbrev pub probe_delays : List ReceivedProbe → List F
  probe_delays = map (λ p. of_difference p.received_at_ms p.sent_at_ms)

  abbrev pub echo_delays : List EchoedProbe → List F
  echo_delays = map (λ p. of_difference p.echoed_at_ms p.sent_at_ms)

  unfoldable pub calculate_metrics : MeasurementState F → ℕ → ClientMetrics F
  calculate_metrics s now = record {
    c2s_throughput = per_window (λ w. throughput w (map (λ b. b.bytes) (bulk_in s now w)));
    s2c_throughput = per_window (λ w. throughput w (map (λ b. b.bytes) (sent_bulk_in s now w)));
    c2s_delay_avg =
        per_window (λ w. if_any (probes_in s now w) (mean (probe_delays (probes_in s now w))));
    s2c_delay_avg =
        per_window (λ w. if_any (echoes_in s now w) (mean (echo_delays (echoes_in s now w))));
    c2s_jitter =
        per_window (λ w. if_any (probes_in s now w) (jitter (probe_delays (probes_in s now w))));
    s2c_jitter =
        per_window (λ w. if_any (echoes_in s now w) (jitter (echo_delays (echoes_in s now w))));
    c2s_loss_rate = per_window (λ w. loss_rate (map (λ p. p.seq) (probes_in s now w)));
    s2c_loss_rate = per_window (λ w. loss_rate (map (λ p. p.seq) (echoes_in s now w)));
    c2s_reorder_rate =
        per_window
          (λ w. if_any (probes_in s now w) (reorder_rate (map (λ p. p.seq) (probes_in s now w))));
    s2c_reorder_rate =
        per_window
          (λ w. if_any (echoes_in s now w) (reorder_rate (map (λ p. p.seq) (echoes_in s now w))));
  }
