-- ===== src/Icmp.antt =====
-- server/src/icmp_listener.rs: what `parse_icmp_error` and `parse_icmpv6_error` read from an ICMP
-- error about a UDP packet, with the types of server/src/packet_tracker.rs that they return.
pub mod Safe
mod Tests
pub mod RoundTrip
use netpoke.Prelude.{ℕ, ◌+◌, ◌*◌, Bool, ◌||◌, List, length, leb, ◌==◌, if◌then◌else◌, min}
use netpoke.Fault.{Outcome, found, missing, panic, ◌>>=◌, ◌>>◌, require, index, slice}
use netpoke.Net.{SocketAddr, low_nibble, high_nibble}
use netpoke.Frame.Read.{be16, ipv4_at, ipv6_at}

pub data IcmpMessageClass : Type 0 where
  error ignore ttl_expired : IcmpMessageClass

pub record EmbeddedUdpInfo : Type 0 where
  pub src_port : ℕ
  pub dest_addr : SocketAddr
  pub udp_length : ℕ
  pub payload_prefix : List ℕ
  pub udp_checksum : ℕ

abbrev pub max_payload_prefix_size : ℕ
max_payload_prefix_size = 64

abbrev pub ipv6_header_size : ℕ
ipv6_header_size = 40

abbrev pub udp_header_size : ℕ
udp_header_size = 8

abbrev pub icmpv6_header_size : ℕ
icmpv6_header_size = 8

abbrev pub min_icmpv6_packet_size : ℕ
min_icmpv6_packet_size = icmpv6_header_size + ipv6_header_size + udp_header_size

unfoldable pub icmp_class : ℕ → IcmpMessageClass
icmp_class icmp_type =
    if icmp_type == 3 then error else if icmp_type == 11 then ttl_expired else ignore

unfoldable pub icmpv6_class : ℕ → IcmpMessageClass
icmpv6_class icmpv6_type =
    if icmpv6_type == 1 then error else if icmpv6_type == 2 then ttl_expired else ignore

unfoldable pub parse_icmp_error : List ℕ → Outcome (EmbeddedUdpInfo × IcmpMessageClass)
parse_icmp_error packet = do
  require (leb 56 (length packet))
  icmp_type ← index packet 20
  icmp_code ← index packet 21
  require (icmp_type == 3 || icmp_type == 11 || icmp_type == 12)
  first ← index packet 28
  require (high_nibble first == 4)
  embedded_protocol ← index packet (28 + 9)
  require (embedded_protocol == 17)
  dest_ip ← ipv4_at packet (28 + 16)
  let embedded_udp_start = 28 + low_nibble first * 4
  require (leb (embedded_udp_start + 8) (length packet))
  src_port ← be16 packet embedded_udp_start
  dest_port ← be16 packet (embedded_udp_start + 2)
  udp_length ← be16 packet (embedded_udp_start + 4)
  udp_checksum ← be16 packet (embedded_udp_start + 6)
  let payload_start = embedded_udp_start + 8
  payload_prefix ←
      slice packet payload_start (min (payload_start + max_payload_prefix_size) (length packet))
  found (
    record {
      src_port = src_port;
      dest_addr = record { ip = dest_ip; port = dest_port };
      udp_length = udp_length;
      payload_prefix = payload_prefix;
      udp_checksum = udp_checksum;
    },
    icmp_class icmp_type,
  )

unfoldable pub parse_icmpv6_error : List ℕ → Outcome (EmbeddedUdpInfo × IcmpMessageClass)
parse_icmpv6_error packet = do
  require (leb min_icmpv6_packet_size (length packet))
  icmpv6_type ← index packet 0
  icmpv6_code ← index packet 1
  require (icmpv6_type == 1 || icmpv6_type == 2 || icmpv6_type == 3)
  require (leb (icmpv6_header_size + ipv6_header_size) (length packet))
  first ← index packet icmpv6_header_size
  require (high_nibble first == 6)
  next_header ← index packet (icmpv6_header_size + 6)
  require (next_header == 17)
  dest_ip ← ipv6_at packet (icmpv6_header_size + 24)
  require (leb (icmpv6_header_size + ipv6_header_size + udp_header_size) (length packet))
  src_port ← be16 packet (icmpv6_header_size + ipv6_header_size)
  dest_port ← be16 packet (icmpv6_header_size + ipv6_header_size + 2)
  udp_length ← be16 packet (icmpv6_header_size + ipv6_header_size + 4)
  udp_checksum ← be16 packet (icmpv6_header_size + ipv6_header_size + 6)
  let payload_start = icmpv6_header_size + ipv6_header_size + udp_header_size
  payload_prefix ←
      slice packet payload_start (min (payload_start + max_payload_prefix_size) (length packet))
  found (
    record {
      src_port = src_port;
      dest_addr = record { ip = dest_ip; port = dest_port };
      udp_length = udp_length;
      payload_prefix = payload_prefix;
      udp_checksum = udp_checksum;
    },
    icmpv6_class icmpv6_type,
  )
