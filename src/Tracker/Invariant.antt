-- ===== src/Tracker/Invariant.antt =====
-- Every history of `PacketTracker` (server/src/packet_tracker.rs): packets sent, ICMP errors, drains
-- and clean-ups in any order.
use netpoke.Prelude.{
  ℕ, ◌≡◌, sym, ap, ◌∙◌, inl, inr, true, some, List, [], ◌∷◌, String, arith, if_pos, if_neg, lookup,
  insert, remove, lookup-insert, lookup-remove, IsUnique, insert-IsUnique, remove-IsUnique,
  remove_all-IsUnique, lookup-remove_all-keys_where, Any, Any-map, All, All-map, All-append,
  Option-cases, Bool-cases, ◌==◌,
}
use netpoke.Tracker.{
  PacketTracker, UdpPacketInfo, TrackedPacket, TrackedPacketEvent, ChecksumKey,
  ChecksumKey-discrete, IcmpInput, tracked_packet, sent_key, embedded_key, matched_event,
  is_expired, receive_tracking, deliver, match_icmp_error, drain_events, set_icmp_error_callback,
  drain_events_for_conn_id, share_out, is_conn, is_conn, cleanup_expired, new,
}
use netpoke.Tracker.Matching.{IsTrackable}

-- The tracker and all packets that were ever sent, the latest first.
pub record World : Type 0 where
  pub tracker : PacketTracker
  pub sent : List UdpPacketInfo

pub data Step : World → World → Type 0 where
  sends :
      (w : World) (info : UdpPacketInfo)
      → Step w (record { tracker = receive_tracking w.tracker info; sent = info ∷ w.sent })
  reports :
      (w : World) (i : IcmpInput)
      → Step w (record { tracker = (match_icmp_error w.tracker i).0; sent = w.sent })
  drains :
      (w : World) (conn_id : String)
      → Step w (record { tracker = (drain_events_for_conn_id w.tracker conn_id).1; sent = w.sent })
  drains_all : (w : World) → Step w (record { tracker = (drain_events w.tracker).1; sent = w.sent })
  sets_callback :
      (w : World) → Step w (record { tracker = set_icmp_error_callback w.tracker; sent = w.sent })
  cleans :
      (w : World) (now : ℕ)
      → Step w (record { tracker = cleanup_expired w.tracker now; sent = w.sent })

pub data Reach : World → World → Type 0 where
  here : (w : World) → Reach w w
  next : {u v w : World} → Reach u v → Step v w → Reach u w

-- The packet was sent under that key, asking to be tracked.
pub record IsOrigin (k : ChecksumKey) (p : TrackedPacket) (info : UdpPacketInfo) : Type 0 where
  pub trackable : IsTrackable info
  pub key : sent_key info ≡ k
  pub packet : tracked_packet info ≡ p

-- The event tells of a packet that was sent: its cleartext, connection, time, options, destination.
pub record TellsOf (e : TrackedPacketEvent) (info : UdpPacketInfo) : Type 0 where
  pub trackable : IsTrackable info
  pub cleartext : e.cleartext ≡ info.cleartext
  pub conn_id : e.conn_id ≡ info.conn_id
  pub sent_at : e.sent_at ≡ info.sent_at
  pub send_options : e.send_options ≡ info.send_options
  pub destination : e.original_dest_addr ≡ info.dest_addr

abbrev pub Entries : PacketTracker → List UdpPacketInfo → Type 0
Entries t sent =
    (k : ChecksumKey) (p : TrackedPacket)
    → lookup ChecksumKey-discrete k t.checksum_index ≡ some p
    → Any (IsOrigin k p) sent

abbrev pub Events : PacketTracker → List UdpPacketInfo → Type 0
Events t sent = All (λ e. Any (TellsOf e) sent) t.event_queue

pub record Inv (w : World) : Type 0 where
  pub unique : IsUnique ChecksumKey-discrete w.tracker.checksum_index
  pub entries : Entries w.tracker w.sent
  pub events : Events w.tracker w.sent

-- What is known of the packets sent stays known when another is sent.
later_events :
    (info : UdpPacketInfo) (sent : List UdpPacketInfo) (es : List TrackedPacketEvent)
    → All (λ e. Any (TellsOf e) sent) es
    → All (λ e. Any (TellsOf e) (info ∷ sent)) es
later_events info sent es h =
    All-map (λ e. Any (TellsOf e) sent) (λ e. Any (TellsOf e) (info ∷ sent)) es (λ e a. inr a) h

insert-Entries :
    (t : PacketTracker) (sent : List UdpPacketInfo) (info : UdpPacketInfo)
    → IsTrackable info
    → Entries t sent
    → (k : ChecksumKey) (p : TrackedPacket)
    → lookup ChecksumKey-discrete k
        (insert ChecksumKey-discrete (sent_key info) (tracked_packet info) t.checksum_index)
      ≡ some p
    → Any (IsOrigin k p) (info ∷ sent)
insert-Entries t sent info ready h k p e = elim (ChecksumKey-discrete (sent_key info) k) [
  | yes same ↦ inl (record {
    trackable = ready;
    key = same;
    packet = cc (
      lookup-insert ChecksumKey-discrete (sent_key info) k (tracked_packet info) t.checksum_index,
      if_pos (ChecksumKey-discrete (sent_key info) k) same (some (tracked_packet info))
          (lookup ChecksumKey-discrete k t.checksum_index),
    );
  })
  | no other ↦ inr (
      h k p (
        cc (
          lookup-insert ChecksumKey-discrete (sent_key info) k (tracked_packet info)
              t.checksum_index,
          if_neg (ChecksumKey-discrete (sent_key info) k) other (some (tracked_packet info))
              (lookup ChecksumKey-discrete k t.checksum_index),
        )))
]

receive_tracking-Inv :
    (w : World) (info : UdpPacketInfo)
    → Inv w
    → Inv (record { tracker = receive_tracking w.tracker info; sent = info ∷ w.sent })
unfolding receive_tracking
receive_tracking-Inv w info v = elim (Bool-cases (info.send_options.track_for_ms == 0)) [
  | inl e ↦ rw e (record {
    unique = v.unique;
    entries = λ k p h. inr (v.entries k p h);
    events = later_events info w.sent w.tracker.event_queue v.events;
  })
  | inr e ↦ rw e (elim (Bool-cases (info.udp_checksum == 0)) [
    | inl f ↦ rw f (record {
      unique = v.unique;
      entries = λ k p h. inr (v.entries k p h);
      events = later_events info w.sent w.tracker.event_queue v.events;
    })
    | inr f ↦ rw f (record {
      unique =
          insert-IsUnique ChecksumKey-discrete (sent_key info) (tracked_packet info) _ v.unique;
      entries =
          insert-Entries w.tracker w.sent info
            (record { asked = ground arith; summed = ground arith }) v.entries;
      events = later_events info w.sent w.tracker.event_queue v.events;
    })
  ])
]

tells-of_origin :
    (i : IcmpInput) (p : TrackedPacket) (info : UdpPacketInfo)
    → IsOrigin (embedded_key i.embedded_udp_info) p info
    → TellsOf (matched_event i p) info
tells-of_origin i p info o = record {
  trackable = o.trackable;
  cleartext = sym (ap (λ (q : TrackedPacket). q.cleartext) o.packet);
  conn_id = sym (ap (λ (q : TrackedPacket). q.conn_id) o.packet);
  sent_at = sym (ap (λ (q : TrackedPacket). q.sent_at) o.packet);
  send_options = sym (ap (λ (q : TrackedPacket). q.send_options) o.packet);
  destination = sym (ap (λ (k : ChecksumKey). k.dest_addr) o.key);
}

remove-Entries :
    (t : PacketTracker) (sent : List UdpPacketInfo) (j : ChecksumKey)
    → Entries t sent
    → (k : ChecksumKey) (p : TrackedPacket)
    → lookup ChecksumKey-discrete k (remove ChecksumKey-discrete j t.checksum_index) ≡ some p
    → Any (IsOrigin k p) sent
remove-Entries t sent j h k p e =
    h k p (ground (arith, lookup-remove ChecksumKey-discrete j k t.checksum_index))

match_icmp_error-Inv :
    (w : World) (i : IcmpInput)
    → Inv w
    → Inv (record { tracker = (match_icmp_error w.tracker i).0; sent = w.sent })
unfolding match_icmp_error deliver
match_icmp_error-Inv w i v = elim (Bool-cases (i.embedded_udp_info.udp_checksum == 0)) [
  | inl e ↦ rw e (record { unique = v.unique; entries = v.entries; events = v.events })
  | inr e ↦ rw e (elim (Option-cases (lookup ChecksumKey-discrete key w.tracker.checksum_index)) [
    | inl f ↦
        rw (f, deliver)
          (record {
            unique = remove-IsUnique ChecksumKey-discrete key _ v.unique;
            entries = remove-Entries w.tracker w.sent key v.entries;
            events = v.events;
          })
    | inr (p, f) ↦
        rw (f, deliver)
          (record {
            unique = remove-IsUnique ChecksumKey-discrete key _ v.unique;
            entries = remove-Entries w.tracker w.sent key v.entries;
            events =
                All-append (λ e. Any (TellsOf e) w.sent) w.tracker.event_queue
                  (matched_event i p ∷ []) v.events
                  (
                    Any-map (IsOrigin key p) (TellsOf (matched_event i p)) w.sent
                        (tells-of_origin i p) (v.entries key p f),
                    tt,
                  );
          })
  ])
]
  where
    key : ChecksumKey
    key = embedded_key i.embedded_udp_info

is_conn-eq :
    (conn_id : String) (e : TrackedPacketEvent) → is_conn conn_id e ≡ true → e.conn_id ≡ conn_id
is_conn-eq conn_id e h = ground arith

share_out-All :
    (P : TrackedPacketEvent → Type 0) (conn_id : String) (es : List TrackedPacketEvent)
    → All P es
    → All P (share_out conn_id es).0 × All P (share_out conn_id es).1
unfolding share_out
share_out-All P conn_id [] h = (tt, tt)
share_out-All P conn_id (e ∷ es) h = elim (Bool-cases (is_conn conn_id e)) [
  | inl c ↦ rw c ((h.0, (share_out-All P conn_id es h.1).0), (share_out-All P conn_id es h.1).1)
  | inr c ↦ rw c ((share_out-All P conn_id es h.1).0, (h.0, (share_out-All P conn_id es h.1).1))
]

-- What is shared out to a connection carries its name.
share_out-own :
    (conn_id : String) (sent : List UdpPacketInfo) (es : List TrackedPacketEvent)
    → All (λ e. Any (TellsOf e) sent) es
    → All
        (λ e. Any (λ info. TellsOf e info × (info.conn_id ≡ conn_id)) sent)
        (share_out conn_id es).0
unfolding share_out
share_out-own conn_id sent [] h = tt
share_out-own conn_id sent (e ∷ es) h = elim (Bool-cases (is_conn conn_id e)) [
  | inl c ↦ rw c (
    Any-map (TellsOf e) (λ info. TellsOf e info × (info.conn_id ≡ conn_id)) sent
        (λ info t. (t, sym t.conn_id ∙ is_conn-eq conn_id e c)) h.0,
    share_out-own conn_id sent es h.1,
  )
  | inr c ↦ rw c (share_out-own conn_id sent es h.1)
]

cleanup-Entries :
    (t : PacketTracker) (sent : List UdpPacketInfo) (now : ℕ)
    → IsUnique ChecksumKey-discrete t.checksum_index
    → Entries t sent
    → Entries (cleanup_expired t now) sent
unfolding cleanup_expired
cleanup-Entries t sent now u h k p e = h k p (
    ground (
      arith,
      lookup-remove_all-keys_where ChecksumKey-discrete (is_expired now) k t.checksum_index u,
    ))

-- Each step keeps the invariant.
pub Step-Inv : {v w : World} → Step v w → Inv v → Inv w
unfolding drain_events drain_events_for_conn_id set_icmp_error_callback cleanup_expired
Step-Inv (sends w info) v = receive_tracking-Inv w info v
Step-Inv (reports w i) v = match_icmp_error-Inv w i v
Step-Inv (drains w conn_id) v = record {
  unique = v.unique;
  entries = v.entries;
  events = (share_out-All (λ e. Any (TellsOf e) w.sent) conn_id w.tracker.event_queue v.events).1;
}
Step-Inv (drains_all w) v = record { unique = v.unique; entries = v.entries; events = tt }
Step-Inv (sets_callback w) v = record { unique = v.unique; entries = v.entries; events = v.events }
Step-Inv (cleans w now) v = record {
  unique = remove_all-IsUnique ChecksumKey-discrete _ _ v.unique;
  entries = cleanup-Entries w.tracker w.sent now v.unique v.entries;
  events = v.events;
}

Reach-Inv : {v w : World} → Reach v w → Inv v → Inv w
Reach-Inv (here w) h = h
Reach-Inv (next r s) h = Step-Inv s (Reach-Inv r h)

-- The state in which the server starts.
abbrev pub start : World
start = record { tracker = new; sent = [] }

start-Inv : Inv start
unfolding new lookup
start-Inv = record { unique = tt; entries = λ k p e. absurd (cc e); events = tt }

-- After any history of sends, ICMP errors, drains and clean-ups, every queued event tells of a
-- packet that was sent and asked to be tracked: the cleartext, connection, time and options are
-- that packet's, and the destination is the one that it was sent to.
pub Reach-Events : (w : World) → Reach start w → Events w.tracker w.sent
Reach-Events w r = (Reach-Inv r start-Inv).events

-- After any history, a drain hands a connection only events of packets that the connection sent
-- itself.
pub Reach-drain :
    (w : World) (conn_id : String)
    → Reach start w
    → All
        (λ e. Any (λ info. TellsOf e info × (info.conn_id ≡ conn_id)) w.sent)
        (drain_events_for_conn_id w.tracker conn_id).0
unfolding drain_events_for_conn_id
Reach-drain w conn_id r =
    share_out-own conn_id w.sent w.tracker.event_queue (Reach-Inv r start-Inv).events
