-- ===== src/Probes/Echoes.antt =====
-- server/src/measurements.rs: the echoes of the server's probes, after any events.
use netpoke.Prelude.{
  ℕ, suc, ◌+◌, ◌-◌, ◌^◌, ◌≤◌, ◌<◌, ◌≡◌, refl, sym, ap, subst, ◌∙◌, some, List, [], ◌∷◌, ◌++◌, arith,
  ℕ_discrete, Map, lookup, insert, length, length-append, get_elem?,
}
use netpoke.Probes.{SentProbe, ProbePacket, server_to_client, minute_ago}
use netpoke.Probes.Floats.{Floats}
use netpoke.Probes.Window.{trim, trim-append}
use netpoke.Probes.Session.{Session, handle_probe_packet, receive_echo, updated, trim_sent}
use netpoke.Probes.Mirror.{
  IsMirror, empty-IsMirror, later-IsMirror, trim_sent-IsMirror, push-IsMirror, mirror-lookup,
}
use netpoke.Probes.Sent.{
  mirrored, next_seq, IsNext, sent_probes-step, sent_probes_map-step, probe_seq-step,
  sent_change-IsNext,
}
use netpoke.Probes.Effects.{conn_id-step}
use netpoke.Probes.Run.{
  Event, step, run, IsClocked, last_time, Change, keep, clear, push, changed, sent_change, sent_log,
}

-- The log is numbered up to the next number, and the queue and the map follow it.
record IsFollowed (cutoff seq : ℕ) (kept : List SentProbe × Map ℕ SentProbe) (log : List SentProbe)
    : Type 0 where
  base : ℕ
  next : seq ≡ base + length log
  mirror : IsMirror base cutoff kept.0 kept.1 log

mirrored-IsFollowed :
    (t now seq : ℕ) (change : Change SentProbe) (kept : List SentProbe × Map ℕ SentProbe)
    (log : List SentProbe)
    → t ≤ now
    → 60000 ≤ now
    → now < 2 ^ 64
    → suc seq < 2 ^ 64
    → IsNext seq now change
    → IsFollowed (t - 60000) seq kept log
    → IsFollowed (now - 60000) (next_seq seq change) (mirrored now change kept) (changed change log)
mirrored-IsFollowed t now seq keep kept log h lo hi room d w = record {
  base = w.base;
  next = w.next;
  mirror = later-IsMirror w.base (t - 60000) (now - 60000) kept.0 kept.1 log (omega arith) w.mirror;
}
mirrored-IsFollowed t now seq clear kept log h lo hi room d w = record {
  base = seq;
  next = omega arith;
  mirror = empty-IsMirror seq (now - 60000);
}
mirrored-IsFollowed t now seq (push y) kept log h lo hi room d w = record {
  base = w.base;
  next = omega (arith, w.next, length-append log (y ∷ []));
  mirror =
      subst
        (λ cutoff.
          let after = trim_sent cutoff (kept.0 ++ (y ∷ [])) (insert ℕ_discrete y.seq y kept.1) in
          IsMirror w.base (now - 60000) after.0 after.1 (log ++ (y ∷ [])))
        (omega arith)
        (trim_sent-IsMirror w.base (now - 60000) (kept.0 ++ (y ∷ []))
          (insert ℕ_discrete y.seq y kept.1) (log ++ (y ∷ []))
          (push-IsMirror w.base (now - 60000) kept.0 kept.1 log y (d.0 ∙ w.next) (
            later-IsMirror w.base (t - 60000) (now - 60000) kept.0 kept.1 log (omega arith)
              w.mirror)));
}

module _ (f : Floats) where
  open f use {F}

  next_seq_le :
      (c : Session f) (e : Event f) (now room : ℕ)
      → c.state.probe_seq + suc room < 2 ^ 64
      → (step f c e now).state.probe_seq + room < 2 ^ 64
  next_seq_le c e now room h =
      subst (λ n. n + room < 2 ^ 64) (sym (probe_seq-step f c e now))
        (bound (sent_change f c e now))
    where
      bound : (change : Change SentProbe) → next_seq c.state.probe_seq change + room < 2 ^ 64
      bound keep = omega arith
      bound clear = omega arith
      bound (push y) = omega arith

  step-IsFollowed :
      (t now : ℕ) (c : Session f) (e : Event f) (log : List SentProbe)
      → t ≤ now
      → 60000 ≤ now
      → now < 2 ^ 64
      → suc c.state.probe_seq < 2 ^ 64
      → IsFollowed (t - 60000) c.state.probe_seq (c.state.sent_probes, c.state.sent_probes_map) log
      → let s = (step f c e now).state in
        IsFollowed
          (now - 60000)
          s.probe_seq
          (s.sent_probes, s.sent_probes_map)
          (changed (sent_change f c e now) log)
  step-IsFollowed t now c e log h lo hi room w =
      subst
        (λ (r : ℕ × List SentProbe × Map ℕ SentProbe).
          IsFollowed (now - 60000) r.0 (r.1, r.2) (changed (sent_change f c e now) log))
        (cc (probe_seq-step f c e now, sent_probes-step f c e now, sent_probes_map-step f c e now))
        (mirrored-IsFollowed t now c.state.probe_seq (sent_change f c e now)
          (c.state.sent_probes, c.state.sent_probes_map) log h lo hi room
          (sent_change-IsNext f c e now) w)

  run-IsFollowed :
      (c : Session f) (from : ℕ) (es : List (Event f × ℕ)) (log : List SentProbe)
      → c.state.probe_seq + length es < 2 ^ 64
      → IsClocked f from es
      → IsFollowed
          (from - 60000)
          c.state.probe_seq
          (c.state.sent_probes, c.state.sent_probes_map)
          log
      → let s = (run f c es).state in
        IsFollowed
          (last_time f from es - 60000)
          s.probe_seq
          (s.sent_probes, s.sent_probes_map)
          (sent_log f c log es)
  unfolding run sent_log
  run-IsFollowed c from [] log room h w = w
  run-IsFollowed c from ((e, now) ∷ es) log room h w =
      run-IsFollowed (step f c e now) now es (changed (sent_change f c e now) log)
        (next_seq_le c e now (length es) room) h.3
        (step-IsFollowed from now c e log h.0 h.1 h.2 (omega arith) w)

  conn_id-run : (c : Session f) (es : List (Event f × ℕ)) → (run f c es).conn_id ≡ c.conn_id
  unfolding run
  conn_id-run c [] = refl
  conn_id-run c ((e, now) ∷ es) = conn_id-run (step f c e now) es ∙ conn_id-step f c e now

  -- A session that knows the probe.
  matched :
      (c : Session f) (now : ℕ) (sent : SentProbe) (echo : ProbePacket)
      → lookup ℕ_discrete echo.seq c.state.sent_probes_map ≡ some sent
      → echo.seq ≡ sent.seq
      → echo.direction ≡ server_to_client
      → echo.conn_id ≡ c.conn_id
      → handle_probe_packet f c (some echo) now
        ≡ updated f c
            (record c.state {
              echoed_probes =
                  trim
                    (λ p. p.echoed_at_ms)
                    (minute_ago now)
                    (c.state.echoed_probes
                      ++ (record {
                        seq = sent.seq;
                        sent_at_ms = sent.sent_at_ms;
                        echoed_at_ms = echo.timestamp_ms;
                      }
                          ∷ []));
            })
            now
  unfolding handle_probe_packet receive_echo updated
  matched c now sent echo known seq dir conn = ground arith

  -- The echo of a probe that was handed to the channel since the queues were last cleared, and in the
  -- last minute, is matched with that probe: if the time that the client wrote into the echo is in the
  -- last minute too, the echo stands at the end of its queue with the time at which the probe was sent,
  -- behind what is left of the queue, and the metrics are computed anew. The session starts with no
  -- sent probes, the clock does not go back, and the sequence numbers do not come to their end.
  pub handle_probe_packet-run :
      (c : Session f) (from now i : ℕ) (es : List (Event f × ℕ)) (sent : SentProbe)
      (echo : ProbePacket)
      → c.state.sent_probes ≡ []
      → c.state.sent_probes_map ≡ []
      → c.state.probe_seq + length es < 2 ^ 64
      → IsClocked f from es
      → last_time f from es ≤ now
      → get_elem? (sent_log f c [] es) i ≡ some sent
      → now - 60000 ≤ sent.sent_at_ms
      → minute_ago now ≤ echo.timestamp_ms
      → echo.seq ≡ sent.seq
      → echo.direction ≡ server_to_client
      → echo.conn_id ≡ c.conn_id
      → let before = (run f c es).state in
        handle_probe_packet f (run f c es) (some echo) now
        ≡ updated f
            (run f c es)
            (record before {
              echoed_probes =
                  trim (λ p. p.echoed_at_ms) (minute_ago now) before.echoed_probes
                  ++ (record {
                    seq = sent.seq;
                    sent_at_ms = sent.sent_at_ms;
                    echoed_at_ms = echo.timestamp_ms;
                  }
                      ∷ []);
            })
            now
  handle_probe_packet-run c from now i es sent echo q m room h l found lo young seq dir conn =
      matched (run f c es) now sent echo
        (ap (λ j. lookup ℕ_discrete j (run f c es).state.sent_probes_map) seq
          ∙ mirror-lookup w.base (last_time f from es - 60000) i (run f c es).state.sent_probes
              (run f c es).state.sent_probes_map (sent_log f c [] es) sent found (omega arith)
              w.mirror)
        seq dir (conn ∙ sym (conn_id-run c es))
      ∙ ap (λ q. updated f (run f c es) (record (run f c es).state { echoed_probes = q }) now)
          (trim-append (λ p. p.echoed_at_ms) (minute_ago now) (run f c es).state.echoed_probes
            (record {
              seq = sent.seq;
              sent_at_ms = sent.sent_at_ms;
              echoed_at_ms = echo.timestamp_ms;
            })
            young)
    where
      w :
          IsFollowed
            (last_time f from es - 60000)
            (run f c es).state.probe_seq
            ((run f c es).state.sent_probes, (run f c es).state.sent_probes_map)
            (sent_log f c [] es)
      w = run-IsFollowed c from es [] room h (record {
        base = c.state.probe_seq;
        next = omega arith;
        mirror =
            subst (λ k. IsMirror c.state.probe_seq (from - 60000) k c.state.sent_probes_map [])
              (sym q)
              (subst (λ k. IsMirror c.state.probe_seq (from - 60000) [] k []) (sym m)
                (empty-IsMirror c.state.probe_seq (from - 60000)));
      })
