-- ===== src/Capture/Tagging.antt =====
-- Which survey session `PacketCaptureService` (server/src/packet_capture.rs) tags a frame with.
use netpoke.Prelude.{
  ℕ, ◌≤◌, ◌≡◌, ◌≢◌, true, Option, none, some, List, String, arith, length, refl, if◌then◌else◌,
}
use netpoke.Fault.{Outcome, found, missing, panic, of_option, optional}
use netpoke.Net.{SocketAddr}
use netpoke.Frame.{is_icmp_error_packet, extract_embedded_destination}
use netpoke.Frame.Safe.{
  parse_packet_addresses-ne-panic, is_icmp_error_packet-ne-panic,
  extract_embedded_destination-ne-panic,
}
use netpoke.Frame.Wire.{
  Mac, ethernet, Ipv4Header, ipv4_packet, IsIpv4Header, ipv4_source, ipv4_destination, UdpHeader,
  IsUdpHeader, udp_datagram, IcmpReport, icmp_report, IsIcmpReport,
}
use netpoke.Frame.RoundTrip.{parse_packet_addresses-ipv4}
use netpoke.Frame.Embedded.{extract_embedded_destination-report}
use netpoke.Capture.Buffer.{CapturedPacket}
use netpoke.Capture.Contents.{IsValid, written, add_packet-written}
use netpoke.Prelude.Rings.{ring_write-IsRing}
use netpoke.Capture.Registry.{
  SessionRegistry, register, lookup, lookup_by_either, lookup_by_server_port, or_else,
}
use netpoke.Capture.Lookups.{lookup-register}
use netpoke.Capture.Service.{
  PacketCaptureService, session_of_embedded, extract_session_id_from_packet, add_packet,
}

is_icmp_error-long : (bytes : List ℕ) → is_icmp_error_packet bytes ≡ found true → 34 ≤ length bytes
unfolding is_icmp_error_packet
is_icmp_error-long bytes = ground arith

session_of_embedded-ne-panic :
    (r : SessionRegistry) (o : Outcome SocketAddr) → o ≢ panic → session_of_embedded r o ≢ panic
unfolding session_of_embedded
session_of_embedded-ne-panic r o h = ground arith

-- Whatever octets are captured and whatever is registered, the look-up of the session ends in a
-- session or in none; it never reads outside the frame.
pub extract_session_id-ne-panic :
    (r : SessionRegistry) (bytes : List ℕ) → extract_session_id_from_packet r bytes ≢ panic
unfolding extract_session_id_from_packet
extract_session_id-ne-panic r bytes = ground (
  arith,
  parse_packet_addresses-ne-panic bytes,
  is_icmp_error_packet-ne-panic bytes,
  is_icmp_error-long bytes,
  extract_embedded_destination-ne-panic bytes,
  session_of_embedded-ne-panic r (extract_embedded_destination bytes),
)

-- A UDP frame over IPv4 and Ethernet that a registered client sends is tagged with the client's session.
pub extract_session_id-from_client :
    (r : SessionRegistry) (dst src : Mac) (h : Ipv4Header) (u : UdpHeader) (payload : List ℕ)
    (port : ℕ) (id : String)
    → IsIpv4Header h
    → IsUdpHeader u
    → h.protocol ≡ 17
    → extract_session_id_from_packet
        (register r (ipv4_source h u.src_port) port id)
        (ethernet dst src 0x0800 (ipv4_packet h (udp_datagram u payload)))
      ≡ found id
unfolding extract_session_id_from_packet lookup_by_either
extract_session_id-from_client r dst src h u payload port id vh vu e = ground (
  arith,
  parse_packet_addresses-ipv4 dst src h u payload vh vu e,
  lookup-register r (ipv4_source h u.src_port) (ipv4_source h u.src_port) port id,
)

-- A UDP frame over IPv4 and Ethernet that is sent to a registered client is tagged with the client's session, unless its source is
-- registered for a session of its own.
pub extract_session_id-to_client :
    (r : SessionRegistry) (dst src : Mac) (h : Ipv4Header) (u : UdpHeader) (payload : List ℕ)
    (port : ℕ) (id : String)
    → IsIpv4Header h
    → IsUdpHeader u
    → h.protocol ≡ 17
    → lookup (register r (ipv4_destination h u.dst_port) port id) (ipv4_source h u.src_port) ≡ none
    → extract_session_id_from_packet
        (register r (ipv4_destination h u.dst_port) port id)
        (ethernet dst src 0x0800 (ipv4_packet h (udp_datagram u payload)))
      ≡ found id
unfolding extract_session_id_from_packet lookup_by_either
extract_session_id-to_client r dst src h u payload port id vh vu e n = ground (
  arith,
  parse_packet_addresses-ipv4 dst src h u payload vh vu e,
  lookup-register r (ipv4_destination h u.dst_port) (ipv4_destination h u.dst_port) port id,
)

-- A well-formed ICMP error over IPv4 and Ethernet between addresses that are not registered is tagged by the datagram that it
-- reports on: by the session that was registered first with the datagram's destination port as its
-- server port, if there is one, and only then by its destination address, else not at all.
pub extract_session_id-report :
    (r : SessionRegistry) (dst src : Mac) (m : IcmpReport)
    → IsIcmpReport m
    → lookup_by_either r (ipv4_source m.outer 0) (ipv4_destination m.outer 0) ≡ none
    → extract_session_id_from_packet r (ethernet dst src 0x0800 (icmp_report m))
      ≡ of_option (
          or_else
            (lookup_by_server_port r m.udp.dst_port)
            (lookup r (ipv4_destination m.inner m.udp.dst_port)))
unfolding extract_session_id_from_packet session_of_embedded
extract_session_id-report r dst src m v n =
    ground (arith, extract_embedded_destination-report dst src m v)

-- What the look-up ends in, as the tag of the packet.
abbrev pub tag : Outcome String → Option String
tag (found id) = some id
tag missing = none
tag panic = none

optional-tag : (o : Outcome String) → o ≢ panic → optional o ≡ found (tag o)
optional-tag (found id) h = refl
optional-tag missing h = refl
optional-tag panic h = absurd (h refl)

-- The packet that a frame is stored as.
abbrev pub tagged : SessionRegistry → ℕ → ℕ → ℕ → List ℕ → CapturedPacket
tagged r ts_sec ts_usec orig_len bytes = record {
  ts_sec = ts_sec;
  ts_usec = ts_usec;
  orig_len = orig_len;
  bytes = bytes;
  survey_session_id = tag (extract_session_id_from_packet r bytes);
}

-- With a valid buffer the capture thread never panics: on every frame an enabled service stores the packet under its
-- tag and stays valid, and a disabled one changes nothing.
pub add_packet-total :
    (s : PacketCaptureService) (ts_sec ts_usec orig_len : ℕ) (bytes : List ℕ)
    → IsValid s.buffer
    → (add_packet s ts_sec ts_usec orig_len bytes
        ≡ found (
            if s.config.enabled
            then record s {
              buffer = written s.buffer (tagged s.session_registry ts_sec ts_usec orig_len bytes);
            }
            else s))
      × IsValid (written s.buffer (tagged s.session_registry ts_sec ts_usec orig_len bytes))
unfolding add_packet
add_packet-total s ts_sec ts_usec orig_len bytes v =
    let p = tagged s.session_registry ts_sec ts_usec orig_len bytes in
    (
      ground (
        arith,
        optional-tag (extract_session_id_from_packet s.session_registry bytes)
            (extract_session_id-ne-panic s.session_registry bytes),
        add_packet-written s.buffer p v,
      ),
      ring_write-IsRing s.buffer.config.max_packets s.buffer.packets s.buffer.write_pos p v,
    )
