-- ===== src/Frame.antt =====
-- server/src/packet_capture.rs: how `PacketCaptureService` reads the addresses of a captured frame
-- and of the packet embedded in an ICMP error. A frame is its list of octets.
pub mod Read
pub mod Safe
pub mod Wire
pub mod Fields
pub mod RoundTrip
pub mod Embedded
pub mod Samples
mod Tests
use netpoke.Prelude.{
  ℕ, ◌+◌, ◌*◌, ◌/◌, Bool, true, false, ◌||◌, ◌&&◌, not, List, ltb, leb, ◌==◌, if◌then◌else◌, length,
}
use netpoke.Fault.{Outcome, found, missing, panic, ◌>>=◌, ◌>>◌, require, index}
use netpoke.Net.{SocketAddr, low_nibble, high_nibble}
use Read.{be16, ipv4_at, ipv6_at}

-- Where the IP header starts: behind an Ethernet header, or at once in a raw IP frame.
unfoldable pub link_start : List ℕ → Outcome ℕ
link_start bytes =
    if leb 14 (length bytes)
    then (do
      ethertype ← be16 bytes 12
      if ethertype == 0x0800 || ethertype == 0x86DD then found 14 else (do
        first ← index bytes 0
        if first / 16 == 4 || first / 16 == 6 then found 0 else missing))
    else found 0

unfoldable pub parse_ipv4_udp_addresses : List ℕ → ℕ → Outcome (SocketAddr × SocketAddr)
parse_ipv4_udp_addresses bytes ip_start = do
  require (leb (ip_start + 20) (length bytes))
  first ← index bytes ip_start
  let ihl = low_nibble first * 4
  protocol ← index bytes (ip_start + 9)
  require (protocol == 17 || protocol == 1)
  src_ip ← ipv4_at bytes (ip_start + 12)
  dst_ip ← ipv4_at bytes (ip_start + 16)
  let udp_start = ip_start + ihl
  let portless : SocketAddr × SocketAddr =
      (record { ip = src_ip; port = 0 }, record { ip = dst_ip; port = 0 })
  if ltb (length bytes) (udp_start + 8)
      then (if protocol == 1 then found portless else missing)
      else if protocol == 1
      then found portless
      else (do
        src_port ← be16 bytes udp_start
        dst_port ← be16 bytes (udp_start + 2)
        found (record { ip = src_ip; port = src_port }, record { ip = dst_ip; port = dst_port }))

unfoldable pub parse_ipv6_udp_addresses : List ℕ → ℕ → Outcome (SocketAddr × SocketAddr)
parse_ipv6_udp_addresses bytes ip_start = do
  require (leb (ip_start + 40) (length bytes))
  next_header ← index bytes (ip_start + 6)
  require (next_header == 17 || next_header == 58)
  src_ip ← ipv6_at bytes (ip_start + 8)
  dst_ip ← ipv6_at bytes (ip_start + 24)
  let udp_start = ip_start + 40
  if next_header == 58
      then found (record { ip = src_ip; port = 0 }, record { ip = dst_ip; port = 0 })
      else (do
        require (leb (udp_start + 8) (length bytes))
        src_port ← be16 bytes udp_start
        dst_port ← be16 bytes (udp_start + 2)
        found (record { ip = src_ip; port = src_port }, record { ip = dst_ip; port = dst_port }))

unfoldable pub parse_packet_addresses : List ℕ → Outcome (SocketAddr × SocketAddr)
parse_packet_addresses bytes = do
  require (leb 42 (length bytes))
  ip_start ← link_start bytes
  require (ltb ip_start (length bytes))
  first ← index bytes ip_start
  if high_nibble first == 4
      then parse_ipv4_udp_addresses bytes ip_start
      else if high_nibble first == 6
      then parse_ipv6_udp_addresses bytes ip_start
      else missing

-- The two arms of `is_icmp_error_packet`, at a known IP version.
unfoldable pub is_icmpv4_error : List ℕ → ℕ → Outcome Bool
is_icmpv4_error bytes ip_start = if ltb (length bytes) (ip_start + 21) then found false else (do
  protocol ← index bytes (ip_start + 9)
  if not (protocol == 1) then found false else (do
    first ← index bytes ip_start
    let ihl = low_nibble first * 4
    if ltb (length bytes) (ip_start + ihl + 1) then found false else (do
      icmp_type ← index bytes (ip_start + ihl)
      found (icmp_type == 3 || icmp_type == 11 || icmp_type == 12))))

unfoldable pub is_icmpv6_error : List ℕ → ℕ → Outcome Bool
is_icmpv6_error bytes ip_start = if ltb (length bytes) (ip_start + 41) then found false else (do
  next_header ← index bytes (ip_start + 6)
  if not (next_header == 58) then found false else (do
    icmpv6_type ← index bytes (ip_start + 40)
    found (icmpv6_type == 1 || icmpv6_type == 2 || icmpv6_type == 3)))

-- `return false` where the link layer is not known.
unfoldable pub is_icmp_error_packet : List ℕ → Outcome Bool
is_icmp_error_packet bytes =
    if ltb (length bytes) 34 then found false else elim (link_start bytes) [
      | missing ↦ found false
      | panic ↦ panic
      | found ip_start ↦ if leb (length bytes) ip_start then found false else (do
        first ← index bytes ip_start
        if high_nibble first == 4
            then is_icmpv4_error bytes ip_start
            else if high_nibble first == 6
            then is_icmpv6_error bytes ip_start
            else found false)
    ]

unfoldable pub extract_embedded_ipv4_destination : List ℕ → ℕ → Outcome SocketAddr
extract_embedded_ipv4_destination bytes ip_start = do
  first ← index bytes ip_start
  let embedded_ip_start = ip_start + low_nibble first * 4 + 8
  require (leb (embedded_ip_start + 28) (length bytes))
  embedded_first ← index bytes embedded_ip_start
  embedded_protocol ← index bytes (embedded_ip_start + 9)
  require (embedded_protocol == 17)
  dst_ip ← ipv4_at bytes (embedded_ip_start + 16)
  let embedded_udp_start = embedded_ip_start + low_nibble embedded_first * 4
  require (leb (embedded_udp_start + 4) (length bytes))
  dst_port ← be16 bytes (embedded_udp_start + 2)
  found (record { ip = dst_ip; port = dst_port })

unfoldable pub extract_embedded_ipv6_destination : List ℕ → ℕ → Outcome SocketAddr
extract_embedded_ipv6_destination bytes ip_start = do
  let embedded_ip_start = ip_start + 40 + 8
  require (leb (embedded_ip_start + 48) (length bytes))
  embedded_next_header ← index bytes (embedded_ip_start + 6)
  require (embedded_next_header == 17)
  dst_ip ← ipv6_at bytes (embedded_ip_start + 24)
  let embedded_udp_start = embedded_ip_start + 40
  require (leb (embedded_udp_start + 4) (length bytes))
  dst_port ← be16 bytes (embedded_udp_start + 2)
  found (record { ip = dst_ip; port = dst_port })

unfoldable pub extract_embedded_destination : List ℕ → Outcome SocketAddr
extract_embedded_destination bytes = do
  ip_start ← link_start bytes
  first ← index bytes ip_start
  if high_nibble first == 4
      then extract_embedded_ipv4_destination bytes ip_start
      else if high_nibble first == 6
      then extract_embedded_ipv6_destination bytes ip_start
      else missing
