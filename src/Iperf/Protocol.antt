-- ===== src/Iperf/Protocol.antt =====
-- `run_session_protocol` of iperf3-server/src/server.rs as a whole.
use netpoke.Prelude.{
  false, ℕ, ◌%◌, ◌^◌, ◌≤◌, ◌≡◌, refl, sym, ap, ◌∙◌, true, Option, none, some, List, [], ◌∷◌, ◌++◌,
  arith, ltb, length, append_assoc, append-nil, subst, Bool-cases, inl, inr,
}
use netpoke.Access.States.{
  from_byte, to_byte, param_exchange, test_running, test_start, create_streams, server_terminate,
  display_results, exchange_results,
}
use netpoke.Iperf.{
  TestParameters, TestSession, Outcome, done, failed, waiting, Peer, connected, and_then,
  read_exact, parsed, state_of, read_json_message, write_json_message, write_all, send_state,
  read_state, apply_limits, be_octets, be_value, max_message_size, finish, end_test, run_test,
  run_session_protocol,
}
use netpoke.Iperf.Framing.{frame, at, read_exact-append, read_json_message-write_json_message}

-- The limits hold for the parameters of any client: its time and its bandwidth are at most the server's, where the
-- server has such a limit, and at most what it asked for. (A bandwidth of 0, which means none, stays 0.)
pub apply_limits_lem :
    (max_duration max_bandwidth : ℕ) (params : TestParameters)
    → let limited = apply_limits max_duration max_bandwidth params in
      (1 ≤ max_duration → limited.time ≤ max_duration)
      × (limited.time ≤ params.time)
      × (1 ≤ max_bandwidth → limited.bandwidth ≤ max_bandwidth)
      × (limited.bandwidth ≤ params.bandwidth)
unfolding apply_limits
apply_limits_lem max_duration max_bandwidth params =
    (λ h. ground arith, ground arith, λ h. ground arith, ground arith)

read_state-at :
    (b : ℕ) (rest : List ℕ) (s : TestSession)
    → read_state (at (b ∷ rest) s) ≡ parsed (from_byte b) (at rest s)
unfolding read_state and_then
read_state-at b rest s = rw (read_exact-append (b ∷ []) rest s) refl

read_framed :
    {A : Type 0} (from_slice : List ℕ → Option A) (octets rest : List ℕ) (a : A) (s : TestSession)
    → length octets ≤ 1048576
    → from_slice octets ≡ some a
    → read_json_message from_slice (at (frame octets ++ rest) s) ≡ done a (at rest s)
read_framed from_slice octets rest a s h e =
    (read_json_message-write_json_message from_slice octets rest s s h).1 ∙ rw e refl

module _ {J : Type 0} (params_of : List ℕ → Option TestParameters) (value_of : List ℕ → Option J)
    (results : List ℕ) where
  -- What a whole session writes: PARAM_EXCHANGE, CREATE_STREAMS, TEST_START, TEST_RUNNING, EXCHANGE_RESULTS, the results,
  -- DISPLAY_RESULTS and SERVER_TERMINATE.
  abbrev pub script : List ℕ
  script = 9 ∷ 10 ∷ 1 ∷ 2 ∷ 13 ∷ (frame results ++ (14 ∷ 15 ∷ []))

  finish-client :
      (own_results : List ℕ) (own : J) (s : TestSession)
      → length own_results ≤ 1048576
      → value_of own_results ≡ some own
      → finish params_of value_of results (at (frame own_results ++ (16 ∷ [])) s)
        ≡ done tt (
            send_state server_terminate (
              send_state display_results
                (write_json_message results (send_state exchange_results (at [] s)))))
  unfolding finish and_then send_state write_all write_json_message from_byte
  finish-client own_results own s h e =
      rw (read_framed value_of own_results (16 ∷ []) own (send_state exchange_results s) h e) (
        rw
          (read_state-at 16 [] (
            send_state display_results
              (write_json_message results (send_state exchange_results s))))
          refl)

  end_test-client :
      (peer : Peer) (rest : List ℕ) (s : TestSession)
      → peer.tasks_end ≡ true
      → end_test params_of value_of results peer (at (4 ∷ rest) s)
        ≡ finish params_of value_of results (at rest (record s { cancelled = true }))
  unfolding end_test and_then from_byte
  end_test-client peer rest s e = rw (read_state-at 4 rest s) (simp e refl)

  -- What a client of the protocol sends.
  abbrev pub client : List ℕ → List ℕ → List ℕ
  client params own_results = frame params ++ (4 ∷ (frame own_results ++ (16 ∷ [])))

  -- A client that sends parameters the server can parse, has its streams connected before the
  -- time-out, sends TEST_END, sends results the server can parse and IPERF_DONE is served to the end, if
  -- the data tasks end once they are cancelled: the session is done, everything that the client sent is
  -- read, and everything that the protocol wants is written, in its order.
  pub run_session_protocol-client :
      (max_duration max_bandwidth : ℕ) (peer : Peer) (params own_results : List ℕ)
      (asked : TestParameters) (own : J)
      → length params ≤ 1048576
      → length own_results ≤ 1048576
      → length results ≤ 1048576
      → params_of params ≡ some asked
      → value_of own_results ≡ some own
      → connected peer (apply_limits max_duration max_bandwidth asked) ≡ true
      → peer.tasks_end ≡ true
      → run_session_protocol params_of value_of results max_duration max_bandwidth peer (record {
        incoming = client params own_results;
        sent = [];
        state = param_exchange;
        cancelled = false;
      })
        ≡ done tt
            (record { incoming = []; sent = script; state = server_terminate; cancelled = true })
  unfolding run_session_protocol run_test and_then send_state write_all write_json_message to_byte
  run_session_protocol-client max_duration max_bandwidth peer params own_results asked own lp lo lr
        p o c z =
      let begun : TestSession = record {
        incoming = [];
        sent = 9 ∷ [];
        state = param_exchange;
        cancelled = false;
      } in
      let whole : length results % 2 ^ 32 ≡ length results = omega arith in
      let ready =
        send_state test_running (send_state test_start (send_state create_streams begun)) in
      rw (read_framed params_of params (4 ∷ (frame own_results ++ (16 ∷ []))) asked begun lp p) (
        simp c (
          rw (end_test-client peer (frame own_results ++ (16 ∷ [])) ready z) (
            rw (finish-client own_results own (record ready { cancelled = true }) lo o) (
              rw whole (
                ap
                  (λ octets. done tt (record {
                    incoming = [];
                    sent = 9 ∷ 10 ∷ 1 ∷ 2 ∷ 13 ∷ (be_octets (length results) ++ octets);
                    state = server_terminate;
                    cancelled = true;
                  }))
                  (append_assoc results (14 ∷ []) (15 ∷ [])))))))

abbrev pub session_of : {A : Type 0} → Outcome A → TestSession
session_of (done a s) = s
session_of (failed s) = s
session_of (waiting s) = s

read_exact-sent : (n : ℕ) (s : TestSession) → (session_of (read_exact n s)).sent ≡ s.sent
unfolding read_exact
read_exact-sent n s = ground arith

-- The octets are the beginning of the whole.
abbrev pub IsPrefix : List ℕ → List ℕ → Type 0
IsPrefix whole octets = (rest : List ℕ) × (octets ++ rest ≡ whole)

parsed-sent :
    {A : Type 0} (o : Option A) (s : TestSession) → (session_of (parsed o s)).sent ≡ s.sent
parsed-sent none s = refl
parsed-sent (some a) s = refl

-- What holds of all that an operation wrote holds behind the next, if the next keeps it.
and_then-sent :
    {A B : Type 0} (P : List ℕ → Type 0) (o : Outcome A) (next : A → TestSession → Outcome B)
    → P (session_of o).sent
    → ((a : A) (s : TestSession) → s.sent ≡ (session_of o).sent → P (session_of (next a s)).sent)
    → P (session_of (and_then o next)).sent
unfolding and_then
and_then-sent P (failed s) next h k = h
and_then-sent P (waiting s) next h k = h
and_then-sent P (done a s) next h k = k a s refl

read_state-sent : (s : TestSession) → (session_of (read_state s)).sent ≡ s.sent
unfolding read_state
read_state-sent s =
    and_then-sent (λ sent. sent ≡ s.sent) (read_exact 1 s) _ (read_exact-sent 1 s)
      (λ buf t e. parsed-sent (state_of buf) t ∙ e ∙ read_exact-sent 1 s)

read_json_message-sent :
    {A : Type 0} (from_slice : List ℕ → Option A) (s : TestSession)
    → (session_of (read_json_message from_slice s)).sent ≡ s.sent
unfolding read_json_message
read_json_message-sent from_slice s =
    and_then-sent (λ sent. sent ≡ s.sent) (read_exact 4 s) _ (read_exact-sent 4 s)
      (λ len_buf t e. elim (Bool-cases (ltb max_message_size (be_value len_buf))) [
        | inl l ↦ rw l (e ∙ read_exact-sent 4 s)
        | inr l ↦ rw l (
            and_then-sent (λ sent. sent ≡ s.sent) (read_exact (be_value len_buf) t) _
              (read_exact-sent (be_value len_buf) t ∙ e ∙ read_exact-sent 4 s)
              (λ octets u f.
                parsed-sent (from_slice octets) u
                ∙ f
                ∙ read_exact-sent (be_value len_buf) t
                ∙ e
                ∙ read_exact-sent 4 s))
      ])

module _ {J : Type 0} (params_of : List ℕ → Option TestParameters) (value_of : List ℕ → Option J)
    (results : List ℕ) where
  abbrev whole : List ℕ
  whole = script params_of value_of results

  shown :
      (s : TestSession)
      → length results ≤ 1048576
      → s.sent ≡ 9 ∷ 10 ∷ 1 ∷ 2 ∷ 13 ∷ []
      → (send_state display_results (write_json_message results s)).sent
        ≡ 9 ∷ 10 ∷ 1 ∷ 2 ∷ 13 ∷ (frame results ++ (14 ∷ []))
  unfolding send_state write_all to_byte write_json_message
  shown s l h =
      let fits : length results % 2 ^ 32 ≡ length results = omega arith in
      rw fits (ap (λ octets. ((octets ++ be_octets (length results)) ++ results) ++ (14 ∷ [])) h)

  end-IsPrefix :
      (s : TestSession)
      → length results ≤ 1048576
      → s.sent ≡ 9 ∷ 10 ∷ 1 ∷ 2 ∷ 13 ∷ []
      → IsPrefix whole
          (session_of (
            and_then
              (read_state (send_state display_results (write_json_message results s)))
              (λ client_state s. done tt (send_state server_terminate s)))).sent
  unfolding send_state write_all to_byte
  end-IsPrefix s l h =
      let last = send_state display_results (write_json_message results s) in
      let told = read_state-sent last ∙ shown s l h in
      let joined = append_assoc (frame results) (14 ∷ []) (15 ∷ []) in
      and_then-sent (IsPrefix whole) (read_state last) _
        (subst (IsPrefix whole) (sym told)
          (15 ∷ [], ap (λ octets. 9 ∷ 10 ∷ 1 ∷ 2 ∷ 13 ∷ octets) joined))
        (λ client_state t e.
          subst (λ octets. IsPrefix whole (octets ++ (15 ∷ []))) (sym (e ∙ told))
            ([], append-nil _ ∙ ap (λ octets. 9 ∷ 10 ∷ 1 ∷ 2 ∷ 13 ∷ octets) joined))

  finish-IsPrefix :
      (s : TestSession)
      → length results ≤ 1048576
      → s.sent ≡ 9 ∷ 10 ∷ 1 ∷ 2 ∷ []
      → IsPrefix whole (session_of (finish params_of value_of results s)).sent
  unfolding finish send_state write_all to_byte write_json_message
  finish-IsPrefix s l h =
      let asked =
        read_json_message-sent value_of (send_state exchange_results s)
        ∙ ap (λ octets. octets ++ (13 ∷ [])) h in
      and_then-sent (IsPrefix whole) (read_json_message value_of (send_state exchange_results s)) _
        (subst (IsPrefix whole) (sym asked) (frame results ++ (14 ∷ 15 ∷ []), refl))
        (λ own u f. end-IsPrefix u l (f ∙ asked))

  end_test-IsPrefix :
      (peer : Peer) (s : TestSession)
      → length results ≤ 1048576
      → s.sent ≡ 9 ∷ 10 ∷ 1 ∷ 2 ∷ []
      → IsPrefix whole (session_of (end_test params_of value_of results peer s)).sent
  unfolding end_test
  end_test-IsPrefix peer s l h =
      let begun = read_state-sent s ∙ h in
      let rest = 13 ∷ (frame results ++ (14 ∷ 15 ∷ [])) in
      and_then-sent (IsPrefix whole) (read_state s) _
        (subst (IsPrefix whole) (sym begun) (rest, refl))
        (λ client_state t e. elim (Bool-cases peer.tasks_end) [
          | inl y ↦ simp y (finish-IsPrefix (record t { cancelled = true }) l (e ∙ begun))
          | inr y ↦ simp y (subst (IsPrefix whole) (sym (e ∙ begun)) (rest, refl))
        ])

  run_test-IsPrefix :
      (peer : Peer) (params : TestParameters) (s : TestSession)
      → length results ≤ 1048576
      → s.sent ≡ 9 ∷ []
      → IsPrefix whole (session_of (run_test params_of value_of results peer params s)).sent
  unfolding run_test send_state write_all to_byte
  run_test-IsPrefix peer params s l h = elim (Bool-cases (connected peer params)) [
    | inl e ↦ rw e (
        end_test-IsPrefix peer _ l
          (ap (λ octets. ((octets ++ (10 ∷ [])) ++ (1 ∷ [])) ++ (2 ∷ [])) h))
    | inr e ↦ rw e (
        subst (λ octets. IsPrefix whole (octets ++ (10 ∷ []))) (sym h)
          (1 ∷ 2 ∷ 13 ∷ (frame results ++ (14 ∷ 15 ∷ [])), refl))
  ]

  -- Whatever a client sends, and however its streams come, what the server has written when the session
  -- is done, has failed or waits for its data tasks is a beginning of what a whole session writes: no state is skipped, repeated or out of order.
  pub run_session_protocol-IsPrefix :
      (max_duration max_bandwidth : ℕ) (peer : Peer) (incoming : List ℕ)
      → length results ≤ 1048576
      → IsPrefix
          (script params_of value_of results)
          (session_of (
            run_session_protocol params_of value_of results max_duration max_bandwidth peer
              (record {
                incoming = incoming;
                sent = [];
                state = param_exchange;
                cancelled = false;
              }))).sent
  unfolding run_session_protocol send_state write_all to_byte
  run_session_protocol-IsPrefix max_duration max_bandwidth peer incoming l =
      let begun : TestSession = record {
        incoming = incoming;
        sent = 9 ∷ [];
        state = param_exchange;
        cancelled = false;
      } in
      and_then-sent (IsPrefix whole) (read_json_message params_of begun) _
        (subst (IsPrefix whole) (sym (read_json_message-sent params_of begun))
          (10 ∷ 1 ∷ 2 ∷ 13 ∷ (frame results ++ (14 ∷ 15 ∷ [])), refl))
        (λ params t e.
          run_test-IsPrefix peer (apply_limits max_duration max_bandwidth params) t l
            (e ∙ read_json_message-sent params_of begun))
