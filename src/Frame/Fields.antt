-- ===== src/Frame/Fields.antt =====
-- Where the fields of an IPv4 or IPv6 packet stand that lies behind a prefix of any length.
use netpoke.Prelude.{
  ℕ, ◌+◌, ◌*◌, ◌≡◌, sym, ap, ◌∙◌, List, ◌++◌, arith, length, length-append, append_assoc,
}
use netpoke.Fault.{found, index, index-append_right, slice-append_right}
use netpoke.Net.{v4, u16_of_be-u16_to_be}
use netpoke.Frame.Read.{be16, ipv4_at, ipv6_at}
use netpoke.Frame.Wire.{
  Ipv4Header, ipv4_fixed, ipv4_packet, IsIpv4Header, UdpHeader, udp_datagram, IsUdpHeader,
}

-- A word behind a prefix.
pub be16-append_right : (xs ys : List ℕ) (i : ℕ) → be16 (xs ++ ys) (length xs + i) ≡ be16 ys i
unfolding be16
be16-append_right xs ys i = rw (index-append_right xs ys i, next, index-append_right xs ys (i + 1))
  where
    next : length xs + i + 1 ≡ length xs + (i + 1)
    next = omega arith

pub ipv4_at-append_right :
    (xs ys : List ℕ) (i : ℕ) → ipv4_at (xs ++ ys) (length xs + i) ≡ ipv4_at ys i
unfolding ipv4_at
ipv4_at-append_right xs ys i = rw (
  index-append_right xs ys i,
  shift 1,
  index-append_right xs ys (i + 1),
  shift 2,
  index-append_right xs ys (i + 2),
  shift 3,
  index-append_right xs ys (i + 3),
)
  where
    shift : (k : ℕ) → length xs + i + k ≡ length xs + (i + k)
    shift k = omega arith

pub ipv6_at-append_right :
    (xs ys : List ℕ) (i : ℕ) → ipv6_at (xs ++ ys) (length xs + i) ≡ ipv6_at ys i
unfolding ipv6_at
ipv6_at-append_right xs ys i = rw (shift, slice-append_right xs ys i (i + 16))
  where
    shift : length xs + i + 16 ≡ length xs + (i + 16)
    shift = omega arith

-- The four words of a UDP header.
module _ (u : UdpHeader) (payload : List ℕ) (v : IsUdpHeader u) where
  pub be16-src_port : be16 (udp_datagram u payload) 0 ≡ found u.src_port
  unfolding be16 index
  be16-src_port = ap found (u16_of_be-u16_to_be u.src_port v.src_small)

  pub be16-dst_port : be16 (udp_datagram u payload) 2 ≡ found u.dst_port
  unfolding be16 index
  be16-dst_port = ap found (u16_of_be-u16_to_be u.dst_port v.dst_small)

  pub be16-udp_length : be16 (udp_datagram u payload) 4 ≡ found u.udp_length
  unfolding be16 index
  be16-udp_length = ap found (u16_of_be-u16_to_be u.udp_length v.length_small)

  pub be16-udp_checksum : be16 (udp_datagram u payload) 6 ≡ found u.udp_checksum
  unfolding be16 index
  be16-udp_checksum = ap found (u16_of_be-u16_to_be u.udp_checksum v.checksum_small)

module _ (pre : List ℕ) (h : Ipv4Header) (payload : List ℕ) where
  pub index-ipv4_version : index (pre ++ ipv4_packet h payload) (length pre) ≡ found (64 + h.words)
  unfolding index
  index-ipv4_version =
      ap (index (pre ++ ipv4_packet h payload)) (omega arith)
      ∙ index-append_right pre (ipv4_packet h payload) 0

  pub index-ipv4_protocol : index (pre ++ ipv4_packet h payload) (length pre + 9) ≡ found h.protocol
  unfolding index
  index-ipv4_protocol = index-append_right pre (ipv4_packet h payload) 9

  pub ipv4_at-ipv4_source :
      ipv4_at (pre ++ ipv4_packet h payload) (length pre + 12) ≡ found (v4 h.s0 h.s1 h.s2 h.s3)
  unfolding ipv4_at index
  ipv4_at-ipv4_source = ipv4_at-append_right pre (ipv4_packet h payload) 12

  pub ipv4_at-ipv4_destination :
      ipv4_at (pre ++ ipv4_packet h payload) (length pre + 16) ≡ found (v4 h.d0 h.d1 h.d2 h.d3)
  unfolding ipv4_at index
  ipv4_at-ipv4_destination = ipv4_at-append_right pre (ipv4_packet h payload) 16

  pub length-ipv4 :
      IsIpv4Header h
      → length (pre ++ ipv4_packet h payload) ≡ length pre + h.words * 4 + length payload
  length-ipv4 v =
      omega (arith, length-append pre (ipv4_packet h payload), length-append h.options payload)

  -- The packet is its header, as a prefix, and its payload.
  pub ipv4_payload : pre ++ ipv4_packet h payload ≡ (pre ++ ipv4_fixed h h.options) ++ payload
  ipv4_payload = sym (append_assoc pre (ipv4_fixed h h.options) payload)

  pub length-ipv4_header :
      IsIpv4Header h → length (pre ++ ipv4_fixed h h.options) ≡ length pre + h.words * 4
  length-ipv4_header v = omega (arith, length-append pre (ipv4_fixed h h.options))

  -- Words of the payload.
  pub be16-ipv4_payload :
      IsIpv4Header h
      → (i : ℕ)
      → be16 (pre ++ ipv4_packet h payload) (length pre + h.words * 4 + i) ≡ be16 payload i
  be16-ipv4_payload v i =
      rw (ipv4_payload, ← length-ipv4_header v)
        (be16-append_right (pre ++ ipv4_fixed h h.options) payload i)

  pub index-ipv4_payload :
      IsIpv4Header h
      → (i : ℕ)
      → index (pre ++ ipv4_packet h payload) (length pre + h.words * 4 + i) ≡ index payload i
  index-ipv4_payload v i =
      rw (ipv4_payload, ← length-ipv4_header v)
        (index-append_right (pre ++ ipv4_fixed h h.options) payload i)
