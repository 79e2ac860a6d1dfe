-- ===== src/Probes/Stats.antt =====
-- server/src/measurements.rs: the indices of `calculate_probe_stream_stats`.
use netpoke.Prelude.{
  ℕ, suc, ◌-◌, ◌*◌, ◌/◌, ◌%◌, ◌^◌, ◌<◌, ◌≡◌, refl, ap, List, [], ◌∷◌, map, length, arith, min, max,
  get_or,
}
use netpoke.Fault.{found, index-lt}
use netpoke.Probes.{MeasurementState, DirectionStats, Spread, ReceivedMeasurementProbe}
use netpoke.Probes.Floats.{Floats}
use netpoke.Probes.Window.{recent}
use netpoke.Probes.Metrics.{reorder_rate}
use netpoke.Probes.Streams.{
  delay_spread, jitter_spread, jitters, stats_of, calculate_probe_stream_stats,
  probe_feedback_window_ms, no_stats, baseline_or, delay, no_spread, stream_loss_rate,
}

length-map : {A B : Type 0} (g : A → B) (xs : List A) → length (map g xs) ≡ length xs
length-map g [] = refl
length-map g (x ∷ xs) = ap suc (length-map g xs)

module _ (f : Floats) where
  open f use {F, sort}

  -- The spread that reads a sorted list at two places.
  abbrev spread_at : List F → ℕ → ℕ → Spread F
  spread_at xs i j = record {
    p50 = get_or xs i f.zero;
    p99 = get_or xs j f.zero;
    least = get_or xs 0 f.zero;
    greatest = get_or xs (length xs - 1) f.zero;
  }

  delay_spread_found :
      (xs : List F)
      → 0 < length xs
      → delay_spread f xs
        ≡ found (spread_at xs (length xs / 2) (min (length xs * 99 / 100) (length xs - 1)))
  unfolding delay_spread
  delay_spread_found xs h =
      rw (index-lt xs (length xs / 2) f.zero (omega arith))
        (rw (index-lt xs (min (length xs * 99 / 100) (length xs - 1)) f.zero (ground arith)) refl)

  jitter_spread_found : (xs : List F) → (s : Spread F) × (jitter_spread f xs ≡ found s)
  unfolding jitter_spread
  jitter_spread_found [] = (spread_at [] 0 0, refl)
  jitter_spread_found (x ∷ xs) = (
    spread_at (x ∷ xs) (max (length (x ∷ xs)) 1 / 2) (max (length (x ∷ xs)) 1 * 99 / 100),
    rw (index-lt (x ∷ xs) (max (length (x ∷ xs)) 1 / 2) f.zero (ground arith))
        (rw (index-lt (x ∷ xs) (max (length (x ∷ xs)) 1 * 99 / 100) f.zero (ground arith)) refl),
  )

  stats_of_found :
      ((xs : List F) → length (sort xs) ≡ length xs)
      → (baseline : F) (ps : List ReceivedMeasurementProbe)
      → (s : DirectionStats F) × (stats_of f baseline ps ≡ found s)
        × (s.probe_count ≡ length ps % 2 ^ 32)
  unfolding stats_of
  stats_of_found h baseline [] = (no_stats f, refl, refl)
  stats_of_found h baseline (p ∷ ps) =
      let delays = sort (map (λ q. f.sub (delay f q) baseline) (p ∷ ps)) in
      let (jitter, j) = jitter_spread_found (sort (jitters f (map (delay f) (p ∷ ps)))) in
      (
        record {
          delay_deviation_ms =
              spread_at delays (length delays / 2)
                (min (length delays * 99 / 100) (length delays - 1));
          rtt_ms = no_spread f;
          jitter_ms = jitter;
          loss_rate = stream_loss_rate f (map (λ q. q.seq) (p ∷ ps));
          reorder_rate = reorder_rate f (map (λ q. q.seq) (p ∷ ps));
          probe_count = length (p ∷ ps) % 2 ^ 32;
          baseline_delay_ms = baseline;
        },
        rw
            (delay_spread_found delays (
              omega (
                arith,
                h (map (λ q. f.sub (delay f q) baseline) (p ∷ ps)),
                length-map (λ q. f.sub (delay f q) baseline) (p ∷ ps),
              )))
            (rw j refl),
        refl,
      )

  -- The statistics of a direction are always computed: no place that they read of a sorted list is out
  -- of its range, however few probes there are, and their count is that of the probes of the last
  -- second, on 32 bits. Sorting keeps the length of a list.
  pub calculate_probe_stream_stats-found :
      ((xs : List F) → length (sort xs) ≡ length xs)
      → (s : MeasurementState F) (now : ℕ)
      → (stats : DirectionStats F) × (calculate_probe_stream_stats f s now ≡ found stats)
        × (stats.probe_count
            ≡ length (
                recent
                  (λ p. p.received_at_ms)
                  (now - probe_feedback_window_ms)
                  s.received_measurement_probes)
              % 2 ^ 32)
  unfolding calculate_probe_stream_stats
  calculate_probe_stream_stats-found h s now = stats_of_found h (baseline_or f s f.zero) (
      recent (λ p. p.received_at_ms) (now - probe_feedback_window_ms) s.received_measurement_probes)
