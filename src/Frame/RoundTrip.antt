-- ===== src/Frame/RoundTrip.antt =====
-- The parsers of server/src/packet_capture.rs against the wire formats.
use netpoke.Prelude.{ℕ, ◌+◌, ◌*◌, ◌≤◌, ◌≡◌, ◌≢◌, [], List, ◌++◌, arith, length}
use netpoke.Fault.{found, index}
use netpoke.Frame.Read.{be16}
use netpoke.Frame.Fields.{
  be16-src_port, be16-dst_port, index-ipv4_version, index-ipv4_protocol, ipv4_at-ipv4_source,
  ipv4_at-ipv4_destination, length-ipv4, be16-ipv4_payload,
}
use netpoke.Frame.Wire.{
  Mac, ethernet, Ipv4Header, ipv4_packet, IsIpv4Header, ipv4_source, ipv4_destination, UdpHeader,
  IsUdpHeader, udp_datagram,
}
use netpoke.Frame.{link_start, parse_ipv4_udp_addresses, parse_packet_addresses}

pub link_start-ethernet :
    (dst src : Mac) (ip : List ℕ) → link_start (ethernet dst src 0x0800 ip) ≡ found 14
unfolding link_start be16 index
link_start-ethernet dst src ip = ground arith

parse_ipv4-packet :
    (pre : List ℕ) (h : Ipv4Header) (u : UdpHeader) (payload : List ℕ)
    → IsIpv4Header h
    → IsUdpHeader u
    → h.protocol ≡ 17
    → parse_ipv4_udp_addresses (pre ++ ipv4_packet h (udp_datagram u payload)) (length pre)
      ≡ found (ipv4_source h u.src_port, ipv4_destination h u.dst_port)
unfolding parse_ipv4_udp_addresses
parse_ipv4-packet pre h u payload vh vu e =
    let datagram = udp_datagram u payload in
    ground (
      arith,
      index-ipv4_version pre h datagram,
      index-ipv4_protocol pre h datagram,
      ipv4_at-ipv4_source pre h datagram,
      ipv4_at-ipv4_destination pre h datagram,
      length-ipv4 pre h datagram vh,
      be16-ipv4_payload pre h datagram vh 0,
      be16-ipv4_payload pre h datagram vh 2,
      be16-src_port u payload vu,
      be16-dst_port u payload vu,
    )

-- A UDP datagram over IPv4 in an Ethernet frame, with any options and any payload: the parser
-- returns the source and the destination that the headers name.
pub parse_packet_addresses-ipv4 :
    (dst src : Mac) (h : Ipv4Header) (u : UdpHeader) (payload : List ℕ)
    → IsIpv4Header h
    → IsUdpHeader u
    → h.protocol ≡ 17
    → parse_packet_addresses (ethernet dst src 0x0800 (ipv4_packet h (udp_datagram u payload)))
      ≡ found (ipv4_source h u.src_port, ipv4_destination h u.dst_port)
unfolding parse_packet_addresses
parse_packet_addresses-ipv4 dst src h u payload vh vu e =
    let datagram = udp_datagram u payload in
    let pre = ethernet dst src 0x0800 [] in
    ground (
      arith,
      link_start-ethernet dst src (ipv4_packet h datagram),
      index-ipv4_version pre h datagram,
      length-ipv4 pre h datagram vh,
      parse_ipv4-packet pre h u payload vh vu e,
    )

-- A UDP datagram over IPv4 in a raw IP frame, with 14 octets of payload or more: the parser returns
-- the source and the destination that the headers name, unless the source address begins with the
-- octets of an EtherType.
pub parse_packet_addresses-raw_ipv4 :
    (h : Ipv4Header) (u : UdpHeader) (payload : List ℕ)
    → IsIpv4Header h
    → IsUdpHeader u
    → h.protocol ≡ 17
    → h.s0 * 256 + h.s1 ≢ 0x0800
    → h.s0 * 256 + h.s1 ≢ 0x86DD
    → 14 ≤ length payload
    → parse_packet_addresses (ipv4_packet h (udp_datagram u payload))
      ≡ found (ipv4_source h u.src_port, ipv4_destination h u.dst_port)
unfolding parse_packet_addresses link_start be16 index
parse_packet_addresses-raw_ipv4 h u payload vh vu e n4 n6 long =
    let datagram = udp_datagram u payload in
    ground (arith, length-ipv4 [] h datagram vh, parse_ipv4-packet [] h u payload vh vu e)

-- A raw frame from 8.0.0.0/16 is taken for an Ethernet frame: the IP header is looked for at
-- offset 14, inside the header that the frame starts with.
pub link_start-raw_ipv4_from_8_0 :
    (h : Ipv4Header) (payload : List ℕ)
    → h.s0 ≡ 8
    → h.s1 ≡ 0
    → link_start (ipv4_packet h payload) ≡ found 14
unfolding link_start be16 index
link_start-raw_ipv4_from_8_0 h payload p q = ground arith
