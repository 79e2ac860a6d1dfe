-- ===== src/Probes/Tests.antt =====
-- Examples of the Probes modules at concrete inputs.
use netpoke.Prelude.{
  ℕ, ◌+◌, ◌-◌, ◌*◌, ◌%◌, ◌^◌, ◌≡◌, refl, true, none, some, List, [], ◌∷◌, ◌++◌, arith, length, max,
}
use netpoke.Fault.{found}
use netpoke.Probes.{
  SentProbe, ProbePacket, client_to_server, server_to_client, DirectionStats, minute_ago,
}
use netpoke.Probes.Counting.{min_seq, max_seq}
use netpoke.Probes.Window.{recent, trim}
use netpoke.Probes.Metrics.{probes_in, bulk_in, loss_rate}
use netpoke.Probes.Loss.{loss_rate-lost, lost}
use netpoke.Probes.Session.{handle_probe_packet, updated, send_probe, trim_sent}
use netpoke.Probes.Streams.{calculate_probe_stream_stats, probe_feedback_window_ms}
use netpoke.Probes.Run.{
  Event, probe_round, probe_arrives, bulk_arrives, run, step, sent_log, sent_change, logged,
  probe_change, bulk_change,
}
use netpoke.Probes.History.{probes_in-run}
use netpoke.Probes.Echoes.{handle_probe_packet-run}
use netpoke.Probes.Stats.{calculate_probe_stream_stats-found}
use netpoke.Probes.Samples.{naturals, session, active_state, received_probe}

abbrev arriving : ProbePacket
arriving = record {
  seq = 4;
  timestamp_ms = 69990;
  direction = client_to_server;
  send_options = none;
  conn_id = "c1";
}

abbrev some_events : List (Event naturals × ℕ)
some_events = (probe_arrives (some arriving), 70000) ∷ (bulk_arrives 1200, 130500) ∷ []

probes_in-run_example :
    (probes_in naturals (run naturals session some_events).state 131000 1000
      ≡ recent
          (λ p. p.received_at_ms)
          (131000 - 1000)
          (logged naturals (probe_change naturals "c1") [] some_events))
    × (bulk_in naturals (run naturals session some_events).state 131000 1000
        ≡ recent
            (λ b. b.received_at_ms)
            (131000 - 1000)
            (logged naturals (bulk_change naturals "c1") [] some_events))
probes_in-run_example =
    probes_in-run naturals session 60000 131000 1000 some_events refl refl
      (omega arith, omega arith, omega arith, (omega arith, omega arith, omega arith, tt))
      (omega arith) (omega arith)

abbrev sent_events : List (Event naturals × ℕ)
sent_events = (probe_round true, 70000) ∷ (probe_round true, 70100) ∷ []

abbrev second_probe : SentProbe
second_probe = record { seq = 1; sent_at_ms = 70100 }

abbrev echo : ProbePacket
echo = record {
  seq = 1;
  timestamp_ms = 70140;
  direction = server_to_client;
  send_options = none;
  conn_id = "c1";
}

handle_probe_packet-run_example :
    let before = (run naturals session sent_events).state in
    handle_probe_packet naturals (run naturals session sent_events) (some echo) 70150
    ≡ updated naturals
        (run naturals session sent_events)
        (record before {
          echoed_probes =
              trim (λ p. p.echoed_at_ms) (minute_ago 70150) before.echoed_probes
              ++ (record { seq = 1; sent_at_ms = 70100; echoed_at_ms = 70140 } ∷ []);
        })
        70150
unfolding run step send_probe trim_sent sent_log sent_change
handle_probe_packet-run_example =
    handle_probe_packet-run naturals session 60000 70150 1 sent_events second_probe echo refl refl
      (omega arith)
      (omega arith, omega arith, omega arith, (omega arith, omega arith, omega arith, tt))
      (omega arith) refl (omega arith) (omega arith) refl refl refl

loss_rate-lost_example :
    loss_rate naturals (5 ∷ 9 ∷ 6 ∷ []) ≡ max ((lost 5 (9 ∷ 6 ∷ []) + 3 - 3) * 100) 0
unfolding min_seq max_seq
loss_rate-lost_example =
    loss_rate-lost naturals 5 9 (6 ∷ []) (refl, (refl, (refl, tt))) (omega arith)

calculate_probe_stream_stats-found_example :
    let state = record active_state {
      received_measurement_probes = received_probe 1 ∷ received_probe 2 ∷ [];
    } in
    (stats : DirectionStats ℕ) × (calculate_probe_stream_stats naturals state 70100 ≡ found stats)
    × (stats.probe_count
        ≡ length (
            recent
              (λ p. p.received_at_ms)
              (70100 - probe_feedback_window_ms)
              state.received_measurement_probes)
          % 2 ^ 32)
calculate_probe_stream_stats-found_example =
    calculate_probe_stream_stats-found naturals (λ xs. refl)
      (record active_state {
        received_measurement_probes = received_probe 1 ∷ received_probe 2 ∷ [];
      })
      70100
