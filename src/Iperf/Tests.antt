-- ===== src/Iperf/Tests.antt =====
-- Examples of the Iperf modules: a client that asks to be sent to for an hour over one TCP stream.
use netpoke.Prelude.{
  ◌≤◌, ◌+◌, ◌-◌, ◌*◌, ◌/◌, ℕ, ◌≡◌, ◌++◌, refl, true, false, Option, none, some, List, [], ◌∷◌,
  arith,
}
use netpoke.Access.States.{param_exchange, server_terminate}
use netpoke.Iperf.{
  TestParameters, TestSession, Peer, connected, wait_for_streams, apply_limits, done, parsed,
  read_json_message, write_json_message, run_session_protocol,
}
use netpoke.Iperf.Sender.{Turn, send_all, bytes_per_second, send_all-bytes_sent_le}
use netpoke.Iperf.Framing.{frame, at, read_json_message-write_json_message}
use netpoke.Iperf.Protocol.{
  script, client, session_of, IsPrefix, run_session_protocol-client, run_session_protocol-IsPrefix,
}

abbrev asked : TestParameters
asked = record {
  time = 3600;
  parallel = 1;
  reverse = true;
  bandwidth = 0;
  blksize = 131072;
  udp = false;
}

-- Two octets are a message with these parameters, and no other text is.
abbrev params_of : List ℕ → Option TestParameters
params_of (a ∷ b ∷ []) = some asked
params_of octets = none

abbrev value_of : List ℕ → Option ℕ
value_of (a ∷ []) = some a
value_of octets = none

abbrev peer : Peer
peer = record { stream_counts = 0 ∷ 0 ∷ 1 ∷ []; udp_streams_come = false; tasks_end = true }

abbrev begun : TestSession
begun = record { incoming = []; sent = []; state = param_exchange; cancelled = false }

in_time : wait_for_streams 1 (0 ∷ 0 ∷ 1 ∷ []) ≡ true
unfolding wait_for_streams
in_time = refl

come : connected peer (apply_limits 60 0 asked) ≡ true
unfolding apply_limits
come = in_time

read_json_message-write_json_message_example :
    ((write_json_message (7 ∷ 8 ∷ []) begun).sent ≡ [] ++ frame (7 ∷ 8 ∷ []))
    × (read_json_message params_of (at (frame (7 ∷ 8 ∷ []) ++ (4 ∷ [])) begun)
        ≡ parsed (params_of (7 ∷ 8 ∷ [])) (at (4 ∷ []) begun))
read_json_message-write_json_message_example =
    read_json_message-write_json_message params_of (7 ∷ 8 ∷ []) (4 ∷ []) begun begun (omega arith)

run_session_protocol-client_example :
    run_session_protocol params_of value_of (1 ∷ []) 60 0 peer (record {
      incoming = client params_of value_of (1 ∷ []) (7 ∷ 8 ∷ []) (9 ∷ []);
      sent = [];
      state = param_exchange;
      cancelled = false;
    })
    ≡ done tt (record {
      incoming = [];
      sent = script params_of value_of (1 ∷ []);
      state = server_terminate;
      cancelled = true;
    })
run_session_protocol-client_example =
    run_session_protocol-client params_of value_of (1 ∷ []) 60 0 peer (7 ∷ 8 ∷ []) (9 ∷ []) asked 9
      (omega arith) (omega arith) (omega arith) refl refl come refl

run_session_protocol-IsPrefix_example :
    IsPrefix
      (script params_of value_of (1 ∷ []))
      (session_of (
        run_session_protocol params_of value_of (1 ∷ []) 60 0 peer (record {
          incoming = 0 ∷ 0 ∷ [];
          sent = [];
          state = param_exchange;
          cancelled = false;
        }))).sent
run_session_protocol-IsPrefix_example =
    run_session_protocol-IsPrefix params_of value_of (1 ∷ []) 60 0 peer (0 ∷ 0 ∷ []) (omega arith)

-- Two turns in the first second, and one in the next.
abbrev turns : List Turn
turns =
    (record { now = 10; cancelled = false; written = true })
    ∷ (record { now = 20; cancelled = false; written = true })
    ∷ (record { now = 1000000010; cancelled = false; written = true })
    ∷ []

send_all-bytes_sent_le_example :
    (send_all
      (bytes_per_second 800)
      1000
      5000000000
      turns
      (record { last_send = 5; bytes_this_second = 0; bytes_sent = 0 })).bytes_sent
    ≤ ((1000000020 - 5) / 1000000000 + 1) * (800 / 8 + 1000)
send_all-bytes_sent_le_example =
    send_all-bytes_sent_le 800 1000 5000000000 5 1000000020 turns (omega arith) (omega arith)
      (omega arith, (omega arith, (omega arith, omega arith)))
