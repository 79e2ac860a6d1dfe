-- ===== src/Frame/Safe.antt =====
-- No frame makes the parsers of server/src/packet_capture.rs read outside it.
use netpoke.Prelude.{ℕ, ◌+◌, ◌*◌, ◌≤◌, ◌<◌, ◌≡◌, ◌≢◌, List, arith, length, get_or}
use netpoke.Fault.{found, panic, index-lt, index-ne-panic}
use netpoke.Net.{low_nibble}
use netpoke.Frame.Read.{be16-le, ipv4_at-le, ipv6_at-le}
use netpoke.Frame.{
  link_start, parse_ipv4_udp_addresses, parse_ipv6_udp_addresses, parse_packet_addresses,
  is_icmpv4_error, is_icmpv6_error, is_icmp_error_packet, extract_embedded_ipv4_destination,
  extract_embedded_ipv6_destination, extract_embedded_destination,
}

pub link_start-ne-panic : (bytes : List ℕ) → link_start bytes ≢ panic
unfolding link_start
link_start-ne-panic bytes = ground (arith, be16-le bytes 12, index-lt bytes 0 0)

-- The link header is none or the fourteen octets of Ethernet.
pub link_start-le : (bytes : List ℕ) (s : ℕ) → link_start bytes ≡ found s → s ≤ 14
unfolding link_start
link_start-le bytes s = ground (arith, be16-le bytes 12, index-lt bytes 0 0)

parse_ipv4-ne-panic : (bytes : List ℕ) (s : ℕ) → parse_ipv4_udp_addresses bytes s ≢ panic
unfolding parse_ipv4_udp_addresses
parse_ipv4-ne-panic bytes s = ground (
  arith,
  index-lt bytes s 0,
  index-lt bytes (s + 9) 0,
  ipv4_at-le bytes (s + 12),
  ipv4_at-le bytes (s + 16),
  be16-le bytes (s + low_nibble (get_or bytes s 0) * 4),
  be16-le bytes (s + low_nibble (get_or bytes s 0) * 4 + 2),
)

parse_ipv6-ne-panic : (bytes : List ℕ) (s : ℕ) → parse_ipv6_udp_addresses bytes s ≢ panic
unfolding parse_ipv6_udp_addresses
parse_ipv6-ne-panic bytes s = ground (
  arith,
  index-lt bytes (s + 6) 0,
  ipv6_at-le bytes (s + 8),
  ipv6_at-le bytes (s + 24),
  be16-le bytes (s + 40),
  be16-le bytes (s + 40 + 2),
)

pub parse_packet_addresses-ne-panic : (bytes : List ℕ) → parse_packet_addresses bytes ≢ panic
unfolding parse_packet_addresses
parse_packet_addresses-ne-panic bytes =
    grind (arith, link_start-ne-panic, parse_ipv4-ne-panic, parse_ipv6-ne-panic, index-ne-panic)

is_icmpv4_error-ne-panic : (bytes : List ℕ) (s : ℕ) → is_icmpv4_error bytes s ≢ panic
unfolding is_icmpv4_error
is_icmpv4_error-ne-panic bytes s = ground (
  arith,
  index-lt bytes (s + 9) 0,
  index-lt bytes s 0,
  index-lt bytes (s + low_nibble (get_or bytes s 0) * 4) 0,
)

is_icmpv6_error-ne-panic : (bytes : List ℕ) (s : ℕ) → is_icmpv6_error bytes s ≢ panic
unfolding is_icmpv6_error
is_icmpv6_error-ne-panic bytes s =
    ground (arith, index-lt bytes (s + 6) 0, index-lt bytes (s + 40) 0)

pub is_icmp_error_packet-ne-panic : (bytes : List ℕ) → is_icmp_error_packet bytes ≢ panic
unfolding is_icmp_error_packet
is_icmp_error_packet-ne-panic bytes =
    grind (
      arith, link_start-ne-panic, is_icmpv4_error-ne-panic, is_icmpv6_error-ne-panic,
      index-ne-panic,
    )

embedded_ipv4-ne-panic :
    (bytes : List ℕ) (s : ℕ) → s < length bytes → extract_embedded_ipv4_destination bytes s ≢ panic
unfolding extract_embedded_ipv4_destination
embedded_ipv4-ne-panic bytes s h =
    let e = s + low_nibble (get_or bytes s 0) * 4 + 8 in
    ground (
      arith,
      index-lt bytes s 0,
      index-lt bytes e 0,
      index-lt bytes (e + 9) 0,
      ipv4_at-le bytes (e + 16),
      be16-le bytes (e + low_nibble (get_or bytes e 0) * 4 + 2),
    )

embedded_ipv6-ne-panic :
    (bytes : List ℕ) (s : ℕ) → extract_embedded_ipv6_destination bytes s ≢ panic
unfolding extract_embedded_ipv6_destination
embedded_ipv6-ne-panic bytes s =
    let e = s + 40 + 8 in
    ground (arith, index-lt bytes (e + 6) 0, ipv6_at-le bytes (e + 24), be16-le bytes (e + 40 + 2))

-- It reads `data[ip_start]` with no test of its own, so it needs a frame longer than a link header.
pub extract_embedded_destination-ne-panic :
    (bytes : List ℕ) → 14 < length bytes → extract_embedded_destination bytes ≢ panic
unfolding extract_embedded_destination
extract_embedded_destination-ne-panic bytes h = grind (
  arith, link_start-ne-panic, link_start-le, embedded_ipv4-ne-panic, embedded_ipv6-ne-panic,
  index-ne-panic,
)
