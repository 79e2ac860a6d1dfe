-- ===== src/Tracker/Matching.antt =====
-- Tracking a packet, and matching an ICMP error with it (server/src/packet_tracker.rs).
use netpoke.Prelude.{
  ◌≡◌, ◌≢◌, refl, none, some, [], ◌∷◌, ◌++◌, arith, if◌then◌else◌, lookup, insert,
  lookup-insert_self, lookup-insert, remove-remove, lookup-remove_self, lookup-remove, ite,
}
use netpoke.Tracker.{
  PacketTracker, UdpPacketInfo, TrackedPacketEvent, ChecksumKey, ChecksumKey-discrete, IcmpInput,
  tracked_packet, sent_key, embedded_key, matched_event, is_error, receive_tracking, deliver,
  match_icmp_error,
}

-- The error is about the packet that was sent: same destination, length and checksum.
pub record IsAbout (i : IcmpInput) (info : UdpPacketInfo) : Type 0 where
  pub dest : i.embedded_udp_info.dest_addr ≡ info.dest_addr
  pub length_same : i.embedded_udp_info.udp_length ≡ info.udp_length
  pub checksum_same : i.embedded_udp_info.udp_checksum ≡ info.udp_checksum

-- The packet asks to be tracked, and has a checksum.
pub record IsTrackable (info : UdpPacketInfo) : Type 0 where
  pub asked : info.send_options.track_for_ms ≢ 0
  pub summed : info.udp_checksum ≢ 0

IsAbout-key :
    (i : IcmpInput) (info : UdpPacketInfo)
    → IsAbout i info
    → embedded_key i.embedded_udp_info ≡ sent_key info
IsAbout-key i info a = cc (a.dest, a.length_same, a.checksum_same)

-- What an event says of the packet that was sent and of the error that came back.
pub record Tells (e : TrackedPacketEvent) (info : UdpPacketInfo) (i : IcmpInput) : Type 0 where
  pub cleartext : e.cleartext ≡ info.cleartext
  pub sent_at : e.sent_at ≡ info.sent_at
  pub send_options : e.send_options ≡ info.send_options
  pub conn_id : e.conn_id ≡ info.conn_id
  pub original_dest_addr : e.original_dest_addr ≡ info.dest_addr
  pub icmp_packet : e.icmp_packet ≡ i.icmp_packet
  pub icmp_received_at : e.icmp_received_at ≡ i.now
  pub router_ip : e.router_ip ≡ i.router_ip
  pub original_src_port : e.original_src_port ≡ i.embedded_udp_info.src_port

matched_event-Tells :
    (info : UdpPacketInfo) (i : IcmpInput)
    → IsAbout i info
    → Tells (matched_event i (tracked_packet info)) info i
matched_event-Tells info i about = record {
  cleartext = refl;
  sent_at = refl;
  send_options = refl;
  conn_id = refl;
  original_dest_addr = about.dest;
  icmp_packet = refl;
  icmp_received_at = refl;
  router_ip = refl;
  original_src_port = refl;
}

-- An ICMP error about the packet tracked last, one with a time-out and a checksum, gives one event at
-- the end of the queue, with the packet's cleartext, time, options, connection and destination, and the
-- error's octets, time, router and source port; the packet is tracked no more, every other stays, and
-- the callback is not called.
pub match_icmp_error-receive_tracking :
    (t : PacketTracker) (info : UdpPacketInfo) (i : IcmpInput)
    → IsTrackable info
    → IsAbout i info
    → let (t', called) = match_icmp_error (receive_tracking t info) i in
      ((e : TrackedPacketEvent) × (t'.event_queue ≡ t.event_queue ++ (e ∷ [])) × Tells e info i)
      × (called ≡ none)
      × ((k : ChecksumKey)
          → lookup ChecksumKey-discrete k t'.checksum_index
            ≡ ite
                (ChecksumKey-discrete (sent_key info) k)
                none
                (lookup ChecksumKey-discrete k t.checksum_index))
unfolding match_icmp_error receive_tracking deliver
match_icmp_error-receive_tracking t info i ready about =
    let put = insert ChecksumKey-discrete (sent_key info) (tracked_packet info) t.checksum_index in
    let same = IsAbout-key i info about in
    let kept =
      lookup-insert_self ChecksumKey-discrete (sent_key info) (tracked_packet info)
        t.checksum_index in
    (
      (
        matched_event i (tracked_packet info),
        ground (arith, same, kept),
        matched_event-Tells info i about,
      ),
      ground (arith, same, kept),
      λ k. ground (
        arith,
        same,
        kept,
        lookup-remove ChecksumKey-discrete (sent_key info) k put,
        lookup-insert ChecksumKey-discrete (sent_key info) k (tracked_packet info) t.checksum_index,
      ),
    )

-- An error matches at most once: the same error again adds no event, and goes to the callback, if
-- one is set, just when it is of the class `Error`.
pub match_icmp_error-twice :
    (t : PacketTracker) (i j : IcmpInput)
    → j.embedded_udp_info ≡ i.embedded_udp_info
    → let t' = (match_icmp_error t i).0 in
      match_icmp_error t' j ≡ (
        t',
        if is_error j.icmp_class
            then (if t.icmp_error_callback then some j.embedded_udp_info else none)
            else none,
      )
unfolding match_icmp_error deliver
match_icmp_error-twice t i j e = ground (
  arith,
  lookup-remove_self ChecksumKey-discrete (embedded_key i.embedded_udp_info) t.checksum_index,
  remove-remove ChecksumKey-discrete (embedded_key i.embedded_udp_info) t.checksum_index,
)
