-- ===== src/Checksum/Receiver.antt =====
-- A receiver's check (RFC 768, RFC 1071) on the checksums that server/src/tracking_channel.rs computes.
use netpoke.Prelude.{
  ℕ, zero, suc, ◌+◌, ◌/◌, ◌%◌, ◌^◌, ◌≤◌, ◌<◌, ◌≡◌, ap, ◌∙◌, some, List, [], ◌∷◌, ◌++◌, arith,
  length, length-append, All, All-append,
}
use netpoke.Net.{u16_to_be}
use netpoke.Checksum.{
  Ipv4Addr, octets_of, sum_words, fold, pad, complement, checksum_of, header_v4, header_v6,
  u32_to_be, calculate_udp_checksum_v4, calculate_udp_checksum_v6,
}
use netpoke.Checksum.Sums.{
  IsOctet, IsEven, IsEven-append, total, total_le, total-append, total-pad, sum_words-total,
  fold_lem, complement_lem,
}

-- A ones'-complement sum of 16-bit words is all ones just if the words add up to a multiple of 65535
-- other than 0 (RFC 1071).
abbrev pub IsAllOnes : List ℕ → Type 0
IsAllOnes octets = (1 ≤ total octets) × (total octets % 65535 ≡ 0)

-- What a receiver sums (RFC 768): addresses, zero, protocol 17 and length, then the datagram as it came.
abbrev pub received_v4 : Ipv4Addr → Ipv4Addr → ℕ → ℕ → List ℕ → ℕ → List ℕ
received_v4 src dest src_port dest_port payload checksum =
    let size = 8 + length payload in
    src.a
    ∷ src.b
    ∷ src.c
    ∷ src.d
    ∷ dest.a
    ∷ dest.b
    ∷ dest.c
    ∷ dest.d
    ∷ 0
    ∷ 17
    ∷ size / 256 % 256
    ∷ size % 256
    ∷ src_port / 256 % 256
    ∷ src_port % 256
    ∷ dest_port / 256 % 256
    ∷ dest_port % 256
    ∷ size / 256 % 256
    ∷ size % 256
    ∷ checksum / 256 % 256
    ∷ checksum % 256
    ∷ payload

-- The same over IPv6 (RFC 8200): addresses, length on 32 bits, three zeros and the next header 17.
abbrev pub received_v6 : List ℕ → List ℕ → ℕ → ℕ → List ℕ → ℕ → List ℕ
received_v6 src dest src_port dest_port payload checksum =
    let size = 8 + length payload in
    (src
      ++ (dest
          ++ (size / 16777216 % 256
              ∷ size / 65536 % 256
              ∷ size / 256 % 256
              ∷ size % 256
              ∷ 0
              ∷ 0
              ∷ 0
              ∷ 17
              ∷ src_port / 256 % 256
              ∷ src_port % 256
              ∷ dest_port / 256 % 256
              ∷ dest_port % 256
              ∷ size % 65536 / 256 % 256
              ∷ size % 65536 % 256
              ∷ [])))
    ++ (checksum / 256 % 256 ∷ checksum % 256 ∷ payload)

total-field :
    (header payload : List ℕ) (c : ℕ)
    → IsEven header
    → c < 65536
    → total (header ++ (u16_to_be c ++ payload)) ≡ total header + (c + total payload)
total-field header payload c e h = total-append header (u16_to_be c ++ payload) e ∙ omega arith

-- The sum of what fits does not wrap.
sum-pad :
    (header payload : List ℕ) (c : ℕ)
    → IsEven header
    → c < 65536
    → All IsOctet header
    → All IsOctet payload
    → length header + length payload ≤ 100000
    → sum_words 0 (pad (header ++ (u16_to_be c ++ payload))) ≡ total header + (c + total payload)
sum-pad header payload c e h oh op l =
    let same = total-pad (header ++ (u16_to_be c ++ payload)) ∙ total-field header payload c e h in
    sum_words-total 0 (pad (header ++ (u16_to_be c ++ payload)))
      (omega (arith, same, total_le header oh, total_le payload op))
    ∙ omega (arith, same)

-- At most one checksum of its range fits.
pub IsAllOnes-unique :
    (header payload : List ℕ) (c d : ℕ)
    → IsEven header
    → (1 ≤ c) × (c < 65536) × IsAllOnes (header ++ (u16_to_be c ++ payload))
    → (1 ≤ d) × (d < 65536) × IsAllOnes (header ++ (u16_to_be d ++ payload))
    → c ≡ d
IsAllOnes-unique header payload c d e f g = omega (
  arith,
  f.0,
  f.1,
  f.2.1,
  g.0,
  g.1,
  g.2.1,
  total-field header payload c e f.1,
  total-field header payload d e g.1,
)

-- A header that is not all zeros, and a payload, with room for both in the sum.
record IsSendable (header payload : List ℕ) : Type 0 where
  even : IsEven header
  positive : 1 ≤ total header
  octets : All IsOctet header × All IsOctet payload
  room : length header + length payload ≤ 100000

checksum_of-IsAllOnes :
    (header payload : List ℕ)
    → IsSendable header payload
    → (c : ℕ) × (checksum_of (header ++ (0 ∷ 0 ∷ payload)) ≡ some c)
      × (1 ≤ c)
      × (c < 65536)
      × IsAllOnes (header ++ (u16_to_be c ++ payload))
checksum_of-IsAllOnes header payload s =
    let sum = total header + (0 + total payload) in
    let bound : sum + 65536 < 2 ^ 32 =
      omega (arith, total_le header s.octets.0, total_le payload s.octets.1, s.room) in
    let (r, folded, small, same, positive) = fold_lem sum (omega arith) in
    let (c, is, low, high, multiple) =
      complement_lem r (positive (omega (arith, s.positive))) small in
    (
      c,
      ap (λ n. complement (fold 3 n))
            (sum-pad header payload 0 s.even (omega arith) s.octets.0 s.octets.1 s.room)
          ∙ ap complement folded
          ∙ is,
      low,
      high,
      (
        omega (arith, s.positive, total-field header payload c s.even high),
        omega (arith, multiple, same, total-field header payload c s.even high),
      ),
    )

abbrev pub IsIpv4Addr : Ipv4Addr → Type 0
IsIpv4Addr x = All IsOctet (octets_of x)

abbrev pub IsIpv6Addr : List ℕ → Type 0
IsIpv6Addr octets = All IsOctet octets × (length octets ≡ 16)

-- The checksum of an IPv4 datagram, its payload at most 65527 octets long, is computed, is not 0 and fits its field; and with it
-- in the field the sum that a receiver takes, over the pseudo-header of the protocol's description and
-- the datagram, is all ones.
pub calculate_udp_checksum_v4-IsAllOnes :
    (src dest : Ipv4Addr) (src_port dest_port : ℕ) (payload : List ℕ)
    → IsIpv4Addr src
    → IsIpv4Addr dest
    → All IsOctet payload
    → length payload ≤ 65527
    → (c : ℕ) × (calculate_udp_checksum_v4 src dest src_port dest_port payload ≡ some c)
      × (1 ≤ c)
      × (c < 65536)
      × IsAllOnes (received_v4 src dest src_port dest_port payload c)
unfolding calculate_udp_checksum_v4
calculate_udp_checksum_v4-IsAllOnes src dest src_port dest_port payload os od op l =
    let whole : (8 + length payload) % 2 ^ 16 ≡ 8 + length payload = omega arith in
    let rest =
      0
      ∷ 17
      ∷ (u16_to_be (8 + length payload)
          ++ (u16_to_be src_port ++ (u16_to_be dest_port ++ u16_to_be (8 + length payload)))) in
    rw whole (
      checksum_of-IsAllOnes
        (header_v4 (octets_of src) (octets_of dest) src_port dest_port (8 + length payload)) payload
        (record {
          even = tt;
          positive = omega arith;
          octets = (
            All-append IsOctet (octets_of src) (octets_of dest ++ rest) os
                (All-append IsOctet (octets_of dest) rest od (ground arith)),
            op,
          );
          room = omega arith;
        }))

pub IsEven-length : (k : ℕ) (xs : List ℕ) → length xs ≡ k + k → IsEven xs
IsEven-length k [] h = tt
IsEven-length k (x ∷ []) h = absurd (omega arith)
IsEven-length zero (x ∷ y ∷ xs) h = absurd (omega arith)
IsEven-length (suc k) (x ∷ y ∷ xs) h = IsEven-length k xs (omega arith)

-- The checksum of an IPv6 datagram, its payload at most 65527 octets long, is computed, is not 0 and fits its field; and with it
-- in the field the sum that a receiver takes, over the pseudo-header of the protocol's description and
-- the datagram, is all ones.
pub calculate_udp_checksum_v6-IsAllOnes :
    (src dest : List ℕ) (src_port dest_port : ℕ) (payload : List ℕ)
    → IsIpv6Addr src
    → IsIpv6Addr dest
    → All IsOctet payload
    → length payload ≤ 65527
    → (c : ℕ) × (calculate_udp_checksum_v6 src dest src_port dest_port payload ≡ some c)
      × (1 ≤ c)
      × (c < 65536)
      × IsAllOnes (received_v6 src dest src_port dest_port payload c)
unfolding calculate_udp_checksum_v6
calculate_udp_checksum_v6-IsAllOnes src dest src_port dest_port payload os od op l =
    let whole : (8 + length payload) % 2 ^ 32 ≡ 8 + length payload = omega arith in
    let rest =
      u32_to_be (8 + length payload)
      ++ (0
          ∷ 0
          ∷ 0
          ∷ 17
          ∷ (u16_to_be src_port
              ++ (u16_to_be dest_port ++ u16_to_be ((8 + length payload) % 2 ^ 16)))) in
    rw whole (
      checksum_of-IsAllOnes (header_v6 src dest src_port dest_port (8 + length payload)) payload
        (record {
          even =
              IsEven-append src _ (IsEven-length 8 src os.1)
                (IsEven-append dest _ (IsEven-length 8 dest od.1) tt);
          positive = omega (
            arith,
            total-append src (dest ++ rest) (IsEven-length 8 src os.1),
            total-append dest rest (IsEven-length 8 dest od.1),
          );
          octets =
              (All-append IsOctet src _ os.0 (All-append IsOctet dest _ od.0 (ground arith)), op);
          room =
              omega (arith, os.1, od.1, length-append src (dest ++ rest), length-append dest rest);
        }))
