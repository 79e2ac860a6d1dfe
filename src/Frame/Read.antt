-- ===== src/Frame/Read.antt =====
-- The reads that the packet parsers of server/src/packet_capture.rs and
-- server/src/icmp_listener.rs are made of: each one panics outside the packet.
use netpoke.Prelude.{ℕ, ◌+◌, ◌-◌, ◌≤◌, ◌≡◌, List, arith, length, get_or, take, drop}
use netpoke.Fault.{Outcome, found, ◌>>=◌, index, slice, index-lt, slice-le}
use netpoke.Net.{IpAddr, v4, v6, u16_of_be}

-- `u16::from_be_bytes([bytes[i], bytes[i + 1]])`
unfoldable pub be16 : List ℕ → ℕ → Outcome ℕ
be16 bytes i = do a ← index bytes i; b ← index bytes (i + 1); found (u16_of_be a b)

-- `Ipv4Addr::new(bytes[i], bytes[i + 1], bytes[i + 2], bytes[i + 3])`
unfoldable pub ipv4_at : List ℕ → ℕ → Outcome IpAddr
ipv4_at bytes i = do
  a ← index bytes i
  b ← index bytes (i + 1)
  c ← index bytes (i + 2)
  d ← index bytes (i + 3)
  found (v4 a b c d)

-- `Ipv6Addr::from(bytes[i..i + 16])`; `try_into` succeeds on a slice of sixteen octets.
unfoldable pub ipv6_at : List ℕ → ℕ → Outcome IpAddr
ipv6_at bytes i = do octets ← slice bytes i (i + 16); found (v6 octets)

-- Inside the packet every read gives a value.
pub be16-le :
    (bytes : List ℕ) (i : ℕ)
    → i + 2 ≤ length bytes
    → be16 bytes i ≡ found (u16_of_be (get_or bytes i 0) (get_or bytes (i + 1) 0))
unfolding be16
be16-le bytes i h = ground (arith, index-lt bytes i 0, index-lt bytes (i + 1) 0)

pub ipv4_at-le :
    (bytes : List ℕ) (i : ℕ)
    → i + 4 ≤ length bytes
    → ipv4_at bytes i
      ≡ found (
          v4
            (get_or bytes i 0)
            (get_or bytes (i + 1) 0)
            (get_or bytes (i + 2) 0)
            (get_or bytes (i + 3) 0))
unfolding ipv4_at
ipv4_at-le bytes i h = ground (
  arith,
  index-lt bytes i 0,
  index-lt bytes (i + 1) 0,
  index-lt bytes (i + 2) 0,
  index-lt bytes (i + 3) 0,
)

pub ipv6_at-le :
    (bytes : List ℕ) (i : ℕ)
    → i + 16 ≤ length bytes
    → ipv6_at bytes i ≡ found (v6 (take 16 (drop i bytes)))
unfolding ipv6_at
ipv6_at-le bytes i h = ground (arith, slice-le bytes i (i + 16), width)
  where
    width : i + 16 - i ≡ 16
    width = omega arith
