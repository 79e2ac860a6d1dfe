-- ===== src/Iperf.antt =====
-- iperf3-server/src/session.rs and server.rs: one session of the iperf3 server, from its control
-- connection's side. What the client ever sends is a list of octets, and reading past it is an error; what
-- the server writes is kept in order. `serde_json` is a parameter: how a message is parsed, and the text
-- of the server's results. The data streams are an argument: the counts that the polls see before
-- the time-out, and whether the UDP streams come. Sender is a task that sends on a data stream.
pub mod Framing
pub mod Protocol
pub mod Sender
mod Tests
use netpoke.Prelude.{
  ℕ, zero, suc, ◌+◌, ◌*◌, ◌/◌, ◌%◌, ◌^◌, Bool, true, false, not, ◌&&◌, Option, none, some, List, [],
  ◌∷◌, ◌++◌, ltb, leb, if◌then◌else◌, length, take, drop,
}
use netpoke.Access.States.{
  State, from_byte, to_byte, param_exchange, create_streams, test_start, test_running,
  exchange_results, display_results, server_terminate,
}

-- The fields of `TestParameters` that the session reads.
pub record TestParameters : Type 0 where
  pub time : ℕ
  pub parallel : ℕ
  pub reverse : Bool
  pub bandwidth : ℕ
  pub blksize : ℕ
  pub udp : Bool

-- The control connection with the session's state.
pub record TestSession : Type 0 where
  pub incoming : List ℕ
  pub sent : List ℕ
  pub state : State
  pub cancelled : Bool

-- The result of an operation, with the session after it, or the session in which it waits for ever.
pub data Outcome (A : Type 0) : Type 0 where
  done : A → TestSession → Outcome A
  failed waiting : TestSession → Outcome A

unfoldable pub and_then : {A B : Type 0} → Outcome A → (A → TestSession → Outcome B) → Outcome B
and_then (done a s) next = next a s
and_then (failed s) next = failed s
and_then (waiting s) next = waiting s

unfoldable pub write_all : List ℕ → TestSession → TestSession
write_all octets s = record s { sent = s.sent ++ octets }

unfoldable pub read_exact : ℕ → TestSession → Outcome (List ℕ)
read_exact n s =
    if ltb (length s.incoming) n
    then failed (record s { incoming = [] })
    else done (take n s.incoming) (record s { incoming = drop n s.incoming })

abbrev pub max_message_size : ℕ
max_message_size = 1024 * 1024

-- `u32::from_be_bytes`
abbrev pub be_value : List ℕ → ℕ
be_value (a ∷ b ∷ c ∷ d ∷ []) = a * 16777216 + b * 65536 + c * 256 + d
be_value octets = 0

abbrev pub be_octets : ℕ → List ℕ
be_octets x = x / 16777216 % 256 ∷ x / 65536 % 256 ∷ x / 256 % 256 ∷ x % 256 ∷ []

abbrev pub parsed : {A : Type 0} → Option A → TestSession → Outcome A
parsed none s = failed s
parsed (some a) s = done a s

-- `serde_json` reads a message as an `A`.
unfoldable pub read_json_message : {A : Type 0} → (List ℕ → Option A) → TestSession → Outcome A
read_json_message from_slice s = and_then (read_exact 4 s) (λ len_buf s.
    if ltb max_message_size (be_value len_buf)
    then failed s
    else and_then (read_exact (be_value len_buf) s) (λ octets s. parsed (from_slice octets) s))

unfoldable pub write_json_message : List ℕ → TestSession → TestSession
write_json_message octets s = write_all octets (write_all (be_octets (length octets % 2 ^ 32)) s)

unfoldable pub send_state : State → TestSession → TestSession
send_state state s = record (write_all (to_byte state ∷ []) s) { state = state }

abbrev pub state_of : List ℕ → Option State
state_of [] = none
state_of (b ∷ octets) = from_byte b

unfoldable pub read_state : TestSession → Outcome State
read_state s = and_then (read_exact 1 s) (λ buf s. parsed (state_of buf) s)

-- The limits of the server on what a client asks for.
unfoldable pub apply_limits : ℕ → ℕ → TestParameters → TestParameters
apply_limits max_duration max_bandwidth params = record params {
  time = if ltb 0 max_duration && ltb max_duration params.time then max_duration else params.time;
  bandwidth =
      if ltb 0 max_bandwidth && ltb max_bandwidth params.bandwidth
      then max_bandwidth
      else params.bandwidth;
}

-- `while session.stream_count().await < expected_streams`, by the counts up to the time-out.
unfoldable pub wait_for_streams : ℕ → List ℕ → Bool
wait_for_streams expected [] = false
wait_for_streams expected (count ∷ counts) =
    let rest = wait_for_streams expected counts in if ltb count expected then rest else true

-- What the other connections of a client do: the counts of streams up to the time-out, whether the
-- UDP streams come, and whether each data task ends once `cancelled` is set. (A receiver looks at the flag
-- every 100 ms; a sender does when its `write_all` is done, which takes a client that reads.)
pub record Peer : Type 0 where
  pub stream_counts : List ℕ
  pub udp_streams_come : Bool
  pub tasks_end : Bool

abbrev pub connected : Peer → TestParameters → Bool
connected peer params =
    if params.udp
    then peer.udp_streams_come
    else wait_for_streams params.parallel peer.stream_counts

module _ {J : Type 0} (params_of : List ℕ → Option TestParameters) (value_of : List ℕ → Option J)
    (results : List ℕ) where
  -- From the end of the data tasks on.
  unfoldable pub finish : TestSession → Outcome Unit
  finish s =
      and_then (read_json_message value_of (send_state exchange_results s)) (λ client_results s.
        and_then (read_state (send_state display_results (write_json_message results s)))
          (λ client_state s. done tt (send_state server_terminate s)))

  -- The end of the test: `cancel`, and `handle.await` for each data task.
  unfoldable pub end_test : Peer → TestSession → Outcome Unit
  end_test peer s = and_then (read_state s) (λ client_state s.
      let cancelled_session = record s { cancelled = true } in
      if peer.tasks_end then finish cancelled_session else waiting cancelled_session)

  -- With the parameters as limited. The data tasks run beside it from TEST_RUNNING on.
  unfoldable pub run_test : Peer → TestParameters → TestSession → Outcome Unit
  run_test peer params s =
      if connected peer params
      then end_test peer
          (send_state test_running (send_state test_start (send_state create_streams s)))
      else failed (send_state create_streams s)

  unfoldable pub run_session_protocol : ℕ → ℕ → Peer → TestSession → Outcome Unit
  run_session_protocol max_duration max_bandwidth peer s =
      and_then (read_json_message params_of (send_state param_exchange s))
        (λ params s. run_test peer (apply_limits max_duration max_bandwidth params) s)
