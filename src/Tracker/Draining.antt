-- ===== src/Tracker/Draining.antt =====
-- How `PacketTracker` (server/src/packet_tracker.rs) hands events out and forgets old packets.
use mathlib.Core.List.{Perm, perm_middle}
use mathlib.Core.List.Perm
use netpoke.Prelude.{
  ℕ, ◌≡◌, ◌≢◌, refl, List, [], ◌∷◌, ◌++◌, String, arith, inl, inr, lookup, IsUnique,
  lookup-remove_all-keys_where, unless, leb, Bool-cases,
}
use netpoke.Tracker.{
  PacketTracker, TrackedPacketEvent, ChecksumKey, ChecksumKey-discrete, is_conn, is_expired,
  share_out, drain_events_for_conn_id, cleanup_expired,
}

share_out-remaining :
    (c : String) (es : List TrackedPacketEvent)
    → share_out c (share_out c es).1 ≡ ([], (share_out c es).1)
unfolding share_out
share_out-remaining c [] = refl
share_out-remaining c (e ∷ es) = elim (Bool-cases (is_conn c e)) [
  | inl h ↦ rw h (share_out-remaining c es)
  | inr h ↦ rw (h, share_out) (rw (h, share_out-remaining c es))
]

share_out-other :
    (c d : String) (es : List TrackedPacketEvent)
    → c ≢ d
    → (share_out d (share_out c es).1).0 ≡ (share_out d es).0
unfolding share_out
share_out-other c d [] n = refl
share_out-other c d (e ∷ es) n = ground (arith, share_out-other c d es n)

share_out-perm :
    (c : String) (es : List TrackedPacketEvent) → Perm ((share_out c es).0 ++ (share_out c es).1) es
unfolding share_out
share_out-perm c [] = Perm.refl []
share_out-perm c (e ∷ es) = elim (Bool-cases (is_conn c e)) [
  | inl h ↦ rw h (Perm.cons e (share_out-perm c es))
  | inr h ↦ rw h (
      Perm.trans (perm_middle (share_out c es).0 (share_out c es).1)
        (Perm.cons e (share_out-perm c es)))
]

drain_again :
    (c : String) (t : PacketTracker)
    → drain_events_for_conn_id (drain_events_for_conn_id t c).1 c
      ≡ ([], (drain_events_for_conn_id t c).1)
unfolding drain_events_for_conn_id
drain_again c t = rw (share_out-remaining c t.event_queue)

-- A drain loses and invents no event: what it returns and what it leaves are the queue; draining
-- the connection again returns nothing and leaves the rest alone, and what another connection
-- drains does not depend on it.
pub drain_events_for_conn_id_lem :
    (t : PacketTracker) (c : String)
    → let (events, t') = drain_events_for_conn_id t c in
      Perm (events ++ t'.event_queue) t.event_queue
      × (drain_events_for_conn_id t' c ≡ ([], t'))
      × ((d : String)
          → c ≢ d
          → (drain_events_for_conn_id t' d).0 ≡ (drain_events_for_conn_id t d).0)
unfolding drain_events_for_conn_id
drain_events_for_conn_id_lem t c =
    (share_out-perm c t.event_queue, drain_again c t, λ d n. share_out-other c d t.event_queue n)

-- A clean-up forgets exactly the packets whose time has come: each key keeps its packet while the
-- packet's expiry is ahead, and loses it from then on. No event is touched. The
-- index has each key once, as a hash map has.
pub lookup-cleanup_expired :
    (t : PacketTracker) (now : ℕ) (k : ChecksumKey)
    → IsUnique ChecksumKey-discrete t.checksum_index
    → (lookup ChecksumKey-discrete k (cleanup_expired t now).checksum_index
        ≡ unless (λ p. leb p.expires_at now) (lookup ChecksumKey-discrete k t.checksum_index))
      × ((cleanup_expired t now).event_queue ≡ t.event_queue)
unfolding cleanup_expired
lookup-cleanup_expired t now k u =
    (lookup-remove_all-keys_where ChecksumKey-discrete (is_expired now) k t.checksum_index u, refl)
