-- ===== src/Probes/Session.antt =====
-- server/src/measurements.rs: one round of each sender and each handler of a session. A handler takes
-- the packet that the message parses to, if any; a sender learns whether its channel is open. The time
-- in milliseconds is an argument. `ClientSession` (server/src/state.rs) is cut to what these read.
use netpoke.Prelude.{
  ℕ, ◌+◌, ◌%◌, ◌^◌, Bool, true, false, not, Option, none, some, List, [], ◌∷◌, ◌++◌, String,
  String-discrete, ℕ_discrete, ltb, if◌then◌else◌, ite, Map, lookup, insert, remove,
}
use netpoke.Tracker.{SendOptions}
use netpoke.Probes.{
  MeasurementState, client_to_server, server_to_client, ProbePacket, TestProbePacket, SentProbe,
  next_u64, minute_ago,
}
use netpoke.Probes.Floats.{Floats}
use netpoke.Probes.Window.{trim}
use netpoke.Probes.Metrics.{ClientMetrics, calculate_metrics}

-- What a round of a sender's loop ends in: the loop is left, nothing is sent, or a packet is.
pub data Round (P : Type 0) : Type 0 where
  stop idle : Round P
  send : P → Round P

-- The loop that forgets old probes in the queue and, with them, in the map.
unfoldable pub trim_sent : ℕ → List SentProbe → Map ℕ SentProbe → List SentProbe × Map ℕ SentProbe
trim_sent cutoff [] sent_map = ([], sent_map)
trim_sent cutoff (p ∷ ps) sent_map =
    let rest = trim_sent cutoff ps (remove ℕ_discrete p.seq sent_map) in
    if ltb p.sent_at_ms cutoff then rest else (p ∷ ps, sent_map)

module _ (f : Floats) where
  open f use {F}

  pub record Session : Type 0 where
    pub conn_id : String
    pub survey_session_id : String
    pub state : MeasurementState F
    pub metrics : ClientMetrics F

  abbrev pub is_own : Session → String → Bool
  is_own c conn_id = ite (String-discrete conn_id c.conn_id) true false

  -- A round of `start_probe_sender`.
  unfoldable pub send_probe :
      String → Bool → ℕ → MeasurementState F → Round ProbePacket × MeasurementState F
  send_probe conn_id is_open now s =
      if not s.traffic_active
      then (stop, s)
      else if not is_open
      then (idle, s)
      else (let sent_probe : SentProbe = record { seq = s.probe_seq; sent_at_ms = now } in
          let kept =
            trim_sent (minute_ago now) (s.sent_probes ++ (sent_probe ∷ []))
              (insert ℕ_discrete s.probe_seq sent_probe s.sent_probes_map) in
          (
            send (record {
              seq = s.probe_seq;
              timestamp_ms = now;
              direction = server_to_client;
              send_options = none;
              conn_id = conn_id;
            }),
            record s {
              probe_seq = next_u64 s.probe_seq;
              sent_probes = kept.0;
              sent_probes_map = kept.1;
            },
          ))

  -- A round of `start_bulk_sender`: the size of the packet is the serialiser's, and `is_sent` is the
  -- channel's answer. The second part is false where the loop is left.
  unfoldable pub send_bulk : Bool → ℕ → Bool → ℕ → MeasurementState F → Bool × MeasurementState F
  send_bulk is_open size is_sent now s =
      if not s.traffic_active
      then (false, s)
      else if not is_open
      then (true, s)
      else if not is_sent
      then (false, s)
      else (
        true,
        record s {
          bulk_bytes_sent = (s.bulk_bytes_sent + size) % 2 ^ 64;
          sent_bulk_packets =
              trim (λ b. b.sent_at_ms) (minute_ago now)
                (s.sent_bulk_packets ++ (record { bytes = size; sent_at_ms = now } ∷ []));
        },
      )

  -- The two arms of `handle_probe_packet`: an echo of the server's probe, a probe of the client's.
  unfoldable pub receive_echo : ProbePacket → ℕ → MeasurementState F → MeasurementState F
  receive_echo probe now s = elim (lookup ℕ_discrete probe.seq s.sent_probes_map) [
    | none ↦ s
    | some sent_probe ↦ record s {
      echoed_probes =
          trim (λ p. p.echoed_at_ms) (minute_ago now)
            (s.echoed_probes
              ++ (record {
                seq = probe.seq;
                sent_at_ms = sent_probe.sent_at_ms;
                echoed_at_ms = probe.timestamp_ms;
              }
                  ∷ []));
    }
  ]

  unfoldable pub receive_probe : ProbePacket → ℕ → MeasurementState F → MeasurementState F
  receive_probe probe now s = record s {
    received_probes =
        trim (λ p. p.received_at_ms) (minute_ago now)
          (s.received_probes
            ++ (record { seq = probe.seq; sent_at_ms = probe.timestamp_ms; received_at_ms = now }
                ∷ []));
  }

  -- The state that a packet of the session leads to, and the metrics of that state.
  unfoldable pub updated : Session → MeasurementState F → ℕ → Session
  updated c s now = record c { state = s; metrics = calculate_metrics f s now }

  unfoldable pub handle_probe_packet : Session → Option ProbePacket → ℕ → Session
  handle_probe_packet c none now = c
  handle_probe_packet c (some probe) now =
      if not (is_own c probe.conn_id)
      then c
      else updated c
          (elim probe.direction [
            | server_to_client ↦ receive_echo probe now c.state
            | client_to_server ↦ receive_probe probe now c.state
          ])
          now

  unfoldable pub handle_bulk_packet : Session → ℕ → ℕ → Session
  handle_bulk_packet c size now =
      updated c
        (record c.state {
          received_bulk_bytes =
              trim (λ b. b.received_at_ms) (minute_ago now)
                (c.state.received_bulk_bytes
                  ++ (record { bytes = size; received_at_ms = now } ∷ []));
        })
        now

  -- `opts.ttl` of the packet's options.
  abbrev pub echoed_ttl : Option SendOptions → Option ℕ
  echoed_ttl none = none
  echoed_ttl (some opts) = opts.ttl

  unfoldable pub note_path_ttl : MeasurementState F → ℕ → MeasurementState F
  note_path_ttl s ttl = elim s.path_ttl [ none ↦ record s { path_ttl = some ttl } | some old ↦ s ]

  unfoldable pub receive_testprobe_echo :
      TestProbePacket → ℕ → MeasurementState F → MeasurementState F
  receive_testprobe_echo probe now s =
      elim (lookup ℕ_discrete probe.test_seq s.sent_testprobes_map) [
        | none ↦ s
        | some sent_testprobe ↦ record s {
          echoed_testprobes =
              trim (λ p. p.echoed_at_ms) (minute_ago now)
                (s.echoed_testprobes
                  ++ (record {
                    seq = probe.test_seq;
                    sent_at_ms = sent_testprobe.sent_at_ms;
                    echoed_at_ms = probe.timestamp_ms;
                  }
                      ∷ []));
        }
      ]

  unfoldable pub handle_testprobe_echo_packet : Session → TestProbePacket → ℕ → Session
  handle_testprobe_echo_packet c probe now =
      if not (is_own c probe.conn_id) then c else elim probe.direction [
        | client_to_server ↦ c
        | server_to_client ↦ elim (echoed_ttl probe.send_options) [
          | some ttl ↦ record c { state = note_path_ttl c.state ttl }
          | none ↦ record c { state = receive_testprobe_echo probe now c.state }
        ]
      ]

  unfoldable pub handle_testprobe_packet : Session → Option TestProbePacket → ℕ → Session
  handle_testprobe_packet c none now = c
  handle_testprobe_packet c (some probe) now = handle_testprobe_echo_packet c probe now
