-- ===== src/Icmp/Safe.antt =====
-- No packet from the raw sockets makes the parsers of server/src/icmp_listener.rs panic.
use netpoke.Prelude.{ℕ, ◌+◌, ◌*◌, ◌≢◌, List, length, arith, get_or, min}
use netpoke.Fault.{panic, index-lt, slice-le}
use netpoke.Net.{low_nibble}
use netpoke.Frame.Read.{be16-le, ipv4_at-le, ipv6_at-le}
use netpoke.Icmp.{parse_icmp_error, parse_icmpv6_error}

parse_icmp_error-ne-panic : (packet : List ℕ) → parse_icmp_error packet ≢ panic
unfolding parse_icmp_error
parse_icmp_error-ne-panic packet =
    let udp = 28 + low_nibble (get_or packet 28 0) * 4 in
    ground (
      arith,
      index-lt packet 20 0,
      index-lt packet 21 0,
      index-lt packet 28 0,
      index-lt packet 37 0,
      ipv4_at-le packet 44,
      be16-le packet udp,
      be16-le packet (udp + 2),
      be16-le packet (udp + 4),
      be16-le packet (udp + 6),
      slice-le packet (udp + 8) (min (udp + 8 + 64) (length packet)),
    )

parse_icmpv6_error-ne-panic : (packet : List ℕ) → parse_icmpv6_error packet ≢ panic
unfolding parse_icmpv6_error
parse_icmpv6_error-ne-panic packet = ground (
  arith,
  index-lt packet 0 0,
  index-lt packet 1 0,
  index-lt packet 8 0,
  index-lt packet 14 0,
  ipv6_at-le packet 32,
  be16-le packet 48,
  be16-le packet 50,
  be16-le packet 52,
  be16-le packet 54,
  slice-le packet 56 (min (56 + 64) (length packet)),
)

-- Every packet is parsed or turned down, by the parser of the ICMP socket and by that of the ICMPv6
-- socket; none ends in a panic.
pub parse-ne-panic :
    (packet : List ℕ) → (parse_icmp_error packet ≢ panic) × (parse_icmpv6_error packet ≢ panic)
parse-ne-panic packet = (parse_icmp_error-ne-panic packet, parse_icmpv6_error-ne-panic packet)
