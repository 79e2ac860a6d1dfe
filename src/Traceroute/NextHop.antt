-- ===== src/Traceroute/NextHop.antt =====
-- server/src/measurements.rs: `extract_mtu_from_icmp` on the messages of its format.
use netpoke.Prelude.{
  ℕ, ◌+◌, ◌*◌, ◌<◌, ◌≡◌, ◌≢◌, List, ◌∷◌, ◌++◌, arith, length, subst, length-append,
}
use netpoke.Fault.{found, panic, index, index-append_right, index-ne-panic}
use netpoke.Traceroute.Mtu.{extract_mtu_from_icmp}

-- An ICMP error "fragmentation needed" behind an IPv4 header, with the MTU of the next hop.
abbrev pub fragmentation_needed : List ℕ → ℕ → ℕ → ℕ → ℕ → List ℕ → List ℕ
fragmentation_needed header check_high check_low high low original =
    header ++ (3 ∷ 4 ∷ check_high ∷ check_low ∷ 0 ∷ 0 ∷ high ∷ low ∷ original)

after_header :
    (header xs : List ℕ) (k : ℕ) → length header ≡ 20 → index (header ++ xs) (20 + k) ≡ index xs k
after_header header xs k e =
    subst (λ n. index (header ++ xs) (n + k) ≡ index xs k) e (index-append_right header xs k)

-- From an error "fragmentation needed" behind an IPv4 header of 20 octets, the MTU of the next hop is
-- read back if it is not zero.
pub extract_mtu_from_icmp-fragmentation_needed :
    (header original : List ℕ) (check_high check_low high low : ℕ)
    → length header ≡ 20
    → 0 < high * 256 + low
    → extract_mtu_from_icmp (fragmentation_needed header check_high check_low high low original)
      ≡ found (high * 256 + low)
unfolding extract_mtu_from_icmp index
extract_mtu_from_icmp-fragmentation_needed header original check_high check_low high low e h =
    let body = 3 ∷ 4 ∷ check_high ∷ check_low ∷ 0 ∷ 0 ∷ high ∷ low ∷ original in
    ground (
      arith,
      length-append header body,
      after_header header body 0 e,
      after_header header body 1 e,
      after_header header body 6 e,
      after_header header body 7 e,
    )

pub extract_mtu_from_icmp-ne-panic : (packet : List ℕ) → extract_mtu_from_icmp packet ≢ panic
unfolding extract_mtu_from_icmp
extract_mtu_from_icmp-ne-panic packet = ground (
  arith,
  index-ne-panic packet 20,
  index-ne-panic packet 21,
  index-ne-panic packet 26,
  index-ne-panic packet 27,
)
