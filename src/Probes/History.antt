-- ===== src/Probes/History.antt =====
-- server/src/measurements.rs: what the queues of a session hold after any events.
use netpoke.Prelude.{
  ℕ, ◌-◌, ◌^◌, ◌≤◌, ◌<◌, ◌≡◌, refl, sym, subst, Bool, true, false, none, some, List, [], ◌∷◌,
  String, if◌then◌else◌,
}
use netpoke.Probes.{MeasurementState, ReceivedProbe, ReceivedBulk}
use netpoke.Probes.Floats.{Floats}
use netpoke.Probes.Window.{
  recent, IsWindow, empty-IsWindow, later-IsWindow, push-IsWindow, recent-IsWindow,
}
use netpoke.Probes.Metrics.{probes_in, bulk_in}
use netpoke.Probes.Session.{Session}
use netpoke.Probes.Effects.{queued, received_probes-step, received_bulk-step, conn_id-step}
use netpoke.Probes.Run.{
  Event, probe_arrives, bulk_arrives, testprobe_arrives, measurement_probe_arrives, probe_round,
  bulk_round, measurement_probe_round, traffic_starts, traffic_stops, traceroute_stops,
  streams_start, streams_stop, stats_arrive, step, run, IsClocked, last_time, as_received, same,
  is_from_client, Change, keep, clear, push, changed, probe_change, bulk_change, logged,
}

-- What comes in is dated now.
abbrev IsDated : {A : Type 0} → (A → ℕ) → ℕ → Change A → Type 0
IsDated time now keep = Unit
IsDated time now clear = Unit
IsDated time now (push y) = time y ≡ now

changed-IsWindow :
    {A : Type 0} (time : A → ℕ) (t now : ℕ) (change : Change A) (queue log : List A)
    → t ≤ now
    → 60000 ≤ now
    → now < 2 ^ 64
    → IsDated time now change
    → IsWindow time t queue log
    → IsWindow time now (queued time now change queue) (changed change log)
changed-IsWindow time t now keep queue log h lo hi d w = later-IsWindow time t now queue log h w
changed-IsWindow time t now clear queue log h lo hi d w = empty-IsWindow time now
changed-IsWindow time t now (push y) queue log h lo hi d w =
    push-IsWindow time t now queue log y h lo hi d w

IsDated-if :
    {A : Type 0} (time : A → ℕ) (now : ℕ) (b : Bool) (x y : Change A)
    → IsDated time now x
    → IsDated time now y
    → IsDated time now (if b then x else y)
IsDated-if time now true x y h k = h
IsDated-if time now false x y h k = k

module _ (f : Floats) where
  open f use {F}

  probe_change-IsDated :
      (conn : String) (e : Event f) (now : ℕ)
      → IsDated (λ p. p.received_at_ms) now (probe_change f conn e now)
  unfolding probe_change
  probe_change-IsDated conn (probe_arrives none) now = tt
  probe_change-IsDated conn (probe_arrives (some p)) now =
      IsDated-if (λ (p : ReceivedProbe). p.received_at_ms) now (same p.conn_id conn) _ keep
        (IsDated-if (λ (p : ReceivedProbe). p.received_at_ms) now (is_from_client p.direction)
          (push (as_received p now)) keep refl tt)
        tt
  probe_change-IsDated conn (traffic_starts conn_id survey) now =
      IsDated-if (λ (p : ReceivedProbe). p.received_at_ms) now (same conn_id conn) clear keep tt tt
  probe_change-IsDated conn (traceroute_stops conn_id) now =
      IsDated-if (λ (p : ReceivedProbe). p.received_at_ms) now (same conn_id conn) clear keep tt tt
  probe_change-IsDated conn (bulk_arrives size) now = tt
  probe_change-IsDated conn (testprobe_arrives p) now = tt
  probe_change-IsDated conn (measurement_probe_arrives p) now = tt
  probe_change-IsDated conn (probe_round is_open) now = tt
  probe_change-IsDated conn (bulk_round is_open size is_sent) now = tt
  probe_change-IsDated conn (measurement_probe_round is_open) now = tt
  probe_change-IsDated conn (traffic_stops conn_id) now = tt
  probe_change-IsDated conn (streams_start conn_id survey max_seconds) now = tt
  probe_change-IsDated conn (streams_stop conn_id) now = tt
  probe_change-IsDated conn (stats_arrive conn_id stats) now = tt

  bulk_change-IsDated :
      (conn : String) (e : Event f) (now : ℕ)
      → IsDated (λ b. b.received_at_ms) now (bulk_change f conn e now)
  unfolding bulk_change
  bulk_change-IsDated conn (probe_arrives p) now = tt
  bulk_change-IsDated conn (traffic_starts conn_id survey) now =
      IsDated-if (λ (b : ReceivedBulk). b.received_at_ms) now (same conn_id conn) clear keep tt tt
  bulk_change-IsDated conn (traceroute_stops conn_id) now =
      IsDated-if (λ (b : ReceivedBulk). b.received_at_ms) now (same conn_id conn) clear keep tt tt
  bulk_change-IsDated conn (bulk_arrives size) now = refl
  bulk_change-IsDated conn (testprobe_arrives p) now = tt
  bulk_change-IsDated conn (measurement_probe_arrives p) now = tt
  bulk_change-IsDated conn (probe_round is_open) now = tt
  bulk_change-IsDated conn (bulk_round is_open size is_sent) now = tt
  bulk_change-IsDated conn (measurement_probe_round is_open) now = tt
  bulk_change-IsDated conn (traffic_stops conn_id) now = tt
  bulk_change-IsDated conn (streams_start conn_id survey max_seconds) now = tt
  bulk_change-IsDated conn (streams_stop conn_id) now = tt
  bulk_change-IsDated conn (stats_arrive conn_id stats) now = tt

  -- The window of a queue that follows its changes, after any events.
  module _ {A : Type 0} (time : A → ℕ) (queue : MeasurementState F → List A)
      (change : String → Event f → ℕ → Change A)
      (follows : (c : Session f) (e : Event f) (now : ℕ)
        → queue (step f c e now).state ≡ queued time now (change c.conn_id e now) (queue c.state))
      (dated : (conn : String) (e : Event f) (now : ℕ) → IsDated time now (change conn e now)) where
    run-IsWindow :
        (c : Session f) (from : ℕ) (es : List (Event f × ℕ)) (log : List A)
        → IsClocked f from es
        → IsWindow time from (queue c.state) log
        → IsWindow time
            (last_time f from es)
            (queue (run f c es).state)
            (logged f (change c.conn_id) log es)
    unfolding run logged
    run-IsWindow c from [] log h w = w
    run-IsWindow c from ((e, now) ∷ es) log h w =
        subst
          (λ conn.
            IsWindow time (last_time f now es) (queue (run f (step f c e now) es).state)
              (logged f (change conn) (changed (change c.conn_id e now) log) es))
          (conn_id-step f c e now)
          (run-IsWindow (step f c e now) now es (changed (change c.conn_id e now) log) h.3 (
            subst (λ q. IsWindow time now q (changed (change c.conn_id e now) log))
              (sym (follows c e now))
              (changed-IsWindow time from now (change c.conn_id e now) (queue c.state) log h.0 h.1
                h.2 (dated c.conn_id e now) w)))

  -- The metrics of a window of up to a minute are computed from all probes and bulk packets that came
  -- in the window for the connection since the queues were last cleared, and from no others, whatever
  -- happened before. The session starts with empty queues, and the clock does not go back.
  pub probes_in-run :
      (c : Session f) (from now window : ℕ) (es : List (Event f × ℕ))
      → c.state.received_probes ≡ []
      → c.state.received_bulk_bytes ≡ []
      → IsClocked f from es
      → last_time f from es ≤ now
      → window ≤ 60000
      → (probes_in f (run f c es).state now window
          ≡ recent
              (λ p. p.received_at_ms)
              (now - window)
              (logged f (probe_change f c.conn_id) [] es))
        × (bulk_in f (run f c es).state now window
            ≡ recent
                (λ b. b.received_at_ms)
                (now - window)
                (logged f (bulk_change f c.conn_id) [] es))
  unfolding probes_in bulk_in
  probes_in-run c from now window es p b h l w = (
    recent-IsWindow (λ p. p.received_at_ms) (last_time f from es) now window
        (run f c es).state.received_probes _ l w
        (run-IsWindow (λ p. p.received_at_ms) (λ s. s.received_probes) (probe_change f)
          (received_probes-step f) probe_change-IsDated c from es [] h
          (subst (λ q. IsWindow (λ (p : ReceivedProbe). p.received_at_ms) from q []) (sym p)
            (empty-IsWindow (λ p. p.received_at_ms) from))),
    recent-IsWindow (λ b. b.received_at_ms) (last_time f from es) now window
        (run f c es).state.received_bulk_bytes _ l w
        (run-IsWindow (λ b. b.received_at_ms) (λ s. s.received_bulk_bytes) (bulk_change f)
          (received_bulk-step f) bulk_change-IsDated c from es [] h
          (subst (λ q. IsWindow (λ (b : ReceivedBulk). b.received_at_ms) from q []) (sym b)
            (empty-IsWindow (λ b. b.received_at_ms) from))),
  )
