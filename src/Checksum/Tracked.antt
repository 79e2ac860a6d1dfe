-- ===== src/Checksum/Tracked.antt =====
-- The way of a probe: from the socket, over server/src/tracking_channel.rs and the callback of
-- server/src/main.rs, to the tracker of server/src/packet_tracker.rs and its ICMP errors.
use netpoke.Prelude.{
  ℕ, ◌+◌, ◌≤◌, ◌<◌, ◌≡◌, refl, ap, ◌∙◌, false, Option, some, List, [], ◌∷◌, ◌++◌, arith, length,
  All, ◌==◌,
}
use netpoke.Net.{IpAddr, v6}
use netpoke.Checksum.{
  Ipv4Addr, Sent, to_v4, octets_of, header_v4, header_v6, tracking_callback, call_back,
  netpoke_track_udp_packet, netpoke_track_udp_packet_v6,
}
use netpoke.Checksum.Sums.{IsOctet, IsEven-append}
use netpoke.Checksum.Receiver.{
  IsAllOnes, IsAllOnes-unique, IsEven-length, received_v4, received_v6, IsIpv4Addr, IsIpv6Addr,
  calculate_udp_checksum_v4-IsAllOnes, calculate_udp_checksum_v6-IsAllOnes,
}
use netpoke.Tracker.{
  PacketTracker, UdpPacketInfo, IcmpInput, TrackedPacketEvent, receive_tracking, match_icmp_error,
}
use netpoke.Tracker.Matching.{IsAbout, IsTrackable, match_icmp_error-receive_tracking}

-- The error that came back embeds the headers of the datagram: its destination, its length, and the
-- checksum that stood in it.
pub record IsReport {A : Type 0} (i : IcmpInput) (s : Sent A) (dest : IpAddr) (checksum : ℕ)
    : Type 0 where
  pub address : i.embedded_udp_info.dest_addr ≡ record { ip = dest; port = s.dest_port }
  pub size : i.embedded_udp_info.udp_length ≡ s.udp_length
  pub sum : i.embedded_udp_info.udp_checksum ≡ checksum

-- What the event says of the datagram.
pub record Traces {A : Type 0} (e : TrackedPacketEvent) (s : Sent A) (dest : IpAddr) : Type 0 where
  pub cleartext : e.cleartext ≡ s.buf
  pub conn_id : e.conn_id ≡ s.conn_id
  pub sent_at : e.sent_at ≡ s.now
  pub ttl : e.send_options.ttl ≡ some s.ttl
  pub destination : e.original_dest_addr ≡ record { ip = dest; port = s.dest_port }

-- The datagram is announced, and the error is matched with it.
abbrev pub IsTraced :
    {A : Type 0} → Sent A → IpAddr → PacketTracker → IcmpInput → Option UdpPacketInfo → Type 0
IsTraced s dest t i announced =
    (info : UdpPacketInfo) × (announced ≡ some info)
    × (e : TrackedPacketEvent) × ((match_icmp_error (receive_tracking t info) i).0.event_queue
        ≡ t.event_queue ++ (e ∷ []))
    × Traces e s dest

call_back-IsTraced :
    {A : Type 0} (dest src : IpAddr) (s : Sent A) (computed : Option ℕ) (c : ℕ) (t : PacketTracker)
    (i : IcmpInput)
    → computed ≡ some c
    → 1 ≤ c
    → IsReport i s dest c
    → IsTraced s dest t i (call_back dest src s computed)
call_back-IsTraced dest src s computed c t i e p r =
    let info = tracking_callback dest src s c in
    let about : IsAbout i info = record {
      dest = r.address;
      length_same = r.size;
      checksum_same = r.sum;
    } in
    let ready : IsTrackable info = record {
      asked = λ q. absurd (omega (arith, q));
      summed = λ q. absurd (omega (arith, q, p));
    } in
    let (event, queued, tells) = (match_icmp_error-receive_tracking t info i ready about).0 in
    (
      info,
      rw e refl,
      event,
      queued,
      record {
        cleartext = tells.cleartext;
        conn_id = tells.conn_id;
        sent_at = tells.sent_at;
        ttl = ap (λ o. o.ttl) tells.send_options;
        destination = tells.original_dest_addr;
      },
    )

-- A datagram over IPv4, not empty and at most 65527 octets long, is announced to the tracker. An ICMP
-- error that embeds its destination, its length and the checksum that stood in it (one that makes a
-- receiver's sum all ones), handled right after that, gives one event at the end of the queue, which has
-- the datagram's content, connection, time, hop limit and destination.
pub netpoke_track_udp_packet-IsTraced :
    (s : Sent Ipv4Addr) (checksum : ℕ) (t : PacketTracker) (i : IcmpInput)
    → IsIpv4Addr s.src_ip
    → IsIpv4Addr s.dest_ip
    → All IsOctet s.buf
    → 1 ≤ length s.buf
    → length s.buf ≤ 65527
    → (1 ≤ checksum)
      × (checksum < 65536)
      × IsAllOnes (received_v4 s.src_ip s.dest_ip s.src_port s.dest_port s.buf checksum)
    → IsReport i s (to_v4 s.dest_ip) checksum
    → IsTraced s (to_v4 s.dest_ip) t i (netpoke_track_udp_packet s)
unfolding netpoke_track_udp_packet
netpoke_track_udp_packet-IsTraced s checksum t i os od op some_octets l wire r =
    let (c, computed, low, high, ones) =
      calculate_udp_checksum_v4-IsAllOnes s.src_ip s.dest_ip s.src_port s.dest_port s.buf os od op
        l in
    let full : (length s.buf == 0) ≡ false = ground arith in
    let same : checksum ≡ c =
      IsAllOnes-unique
        (header_v4 (octets_of s.src_ip) (octets_of s.dest_ip) s.src_port s.dest_port
          (8 + length s.buf))
        s.buf checksum c tt wire (low, high, ones) in
    simp full (
      call_back-IsTraced (to_v4 s.dest_ip) _ s _ c t i computed low
        (record { address = r.address; size = r.size; sum = r.sum ∙ same }))

-- The same over IPv6.
pub netpoke_track_udp_packet_v6-IsTraced :
    (s : Sent (List ℕ)) (checksum : ℕ) (t : PacketTracker) (i : IcmpInput)
    → IsIpv6Addr s.src_ip
    → IsIpv6Addr s.dest_ip
    → All IsOctet s.buf
    → 1 ≤ length s.buf
    → length s.buf ≤ 65527
    → (1 ≤ checksum)
      × (checksum < 65536)
      × IsAllOnes (received_v6 s.src_ip s.dest_ip s.src_port s.dest_port s.buf checksum)
    → IsReport i s (v6 s.dest_ip) checksum
    → IsTraced s (v6 s.dest_ip) t i (netpoke_track_udp_packet_v6 s)
unfolding netpoke_track_udp_packet_v6
netpoke_track_udp_packet_v6-IsTraced s checksum t i os od op some_octets l wire r =
    let (c, computed, low, high, ones) =
      calculate_udp_checksum_v6-IsAllOnes s.src_ip s.dest_ip s.src_port s.dest_port s.buf os od op
        l in
    let full : (length s.buf == 0) ≡ false = ground arith in
    let same : checksum ≡ c =
      IsAllOnes-unique (header_v6 s.src_ip s.dest_ip s.src_port s.dest_port (8 + length s.buf))
        s.buf checksum c
        (IsEven-append s.src_ip _ (IsEven-length 8 s.src_ip os.1)
          (IsEven-append s.dest_ip _ (IsEven-length 8 s.dest_ip od.1) tt))
        wire (low, high, ones) in
    simp full (
      call_back-IsTraced (v6 s.dest_ip) _ s _ c t i computed low
        (record { address = r.address; size = r.size; sum = r.sum ∙ same }))
