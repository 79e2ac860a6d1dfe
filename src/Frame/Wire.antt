-- ===== src/Frame/Wire.antt =====
-- The wire formats (Ethernet II, RFC 791, RFC 8200, RFC 768, RFC 792, RFC 4443), written down apart
-- from the parsers: what a frame is that carries a given datagram.
use netpoke.Prelude.{ℕ, ◌+◌, ◌*◌, ◌≤◌, ◌<◌, ◌^◌, ◌≡◌, ◌⊎◌, List, ◌∷◌, ◌++◌, length}
use netpoke.Net.{v4, SocketAddr, u16_to_be}

pub record Mac : Type 0 where
  pub a : ℕ
  pub b : ℕ
  pub c : ℕ
  pub d : ℕ
  pub e : ℕ
  pub f : ℕ

abbrev pub ethernet : Mac → Mac → ℕ → List ℕ → List ℕ
ethernet dst src ethertype ip =
    dst.a
    ∷ dst.b
    ∷ dst.c
    ∷ dst.d
    ∷ dst.e
    ∷ dst.f
    ∷ src.a
    ∷ src.b
    ∷ src.c
    ∷ src.d
    ∷ src.e
    ∷ src.f
    ∷ (u16_to_be ethertype ++ ip)

-- `words` is the header length in 32-bit words, the options included.
pub record Ipv4Header : Type 0 where
  pub words : ℕ
  pub tos : ℕ
  pub total_length : ℕ
  pub ident : ℕ
  pub fragment : ℕ
  pub ttl : ℕ
  pub protocol : ℕ
  pub checksum : ℕ
  pub s0 : ℕ
  pub s1 : ℕ
  pub s2 : ℕ
  pub s3 : ℕ
  pub d0 : ℕ
  pub d1 : ℕ
  pub d2 : ℕ
  pub d3 : ℕ
  pub options : List ℕ

abbrev pub ipv4_fixed : Ipv4Header → List ℕ → List ℕ
ipv4_fixed h rest =
    (64 + h.words)
    ∷ h.tos
    ∷ (u16_to_be h.total_length
        ++ (u16_to_be h.ident
            ++ (u16_to_be h.fragment
                ++ (h.ttl
                    ∷ h.protocol
                    ∷ (u16_to_be h.checksum
                        ++ (h.s0 ∷ h.s1 ∷ h.s2 ∷ h.s3 ∷ h.d0 ∷ h.d1 ∷ h.d2 ∷ h.d3 ∷ rest))))))

abbrev pub ipv4_packet : Ipv4Header → List ℕ → List ℕ
ipv4_packet h payload = ipv4_fixed h (h.options ++ payload)

-- A header of 5 to 15 words, whose options fill what the fixed 20 octets leave.
pub record IsIpv4Header (h : Ipv4Header) : Type 0 where
  pub least : 5 ≤ h.words
  pub most : h.words ≤ 15
  pub filled : length h.options + 20 ≡ h.words * 4

abbrev pub ipv4_source : Ipv4Header → ℕ → SocketAddr
ipv4_source h port = record { ip = v4 h.s0 h.s1 h.s2 h.s3; port = port }

abbrev pub ipv4_destination : Ipv4Header → ℕ → SocketAddr
ipv4_destination h port = record { ip = v4 h.d0 h.d1 h.d2 h.d3; port = port }

pub record Ipv6Header : Type 0 where
  pub flow : ℕ
  pub f1 : ℕ
  pub f2 : ℕ
  pub f3 : ℕ
  pub payload_length : ℕ
  pub next_header : ℕ
  pub hop_limit : ℕ
  pub source : List ℕ
  pub destination : List ℕ

abbrev pub ipv6_fixed : Ipv6Header → List ℕ → List ℕ
ipv6_fixed h rest =
    (96 + h.flow)
    ∷ h.f1
    ∷ h.f2
    ∷ h.f3
    ∷ (u16_to_be h.payload_length ++ (h.next_header ∷ h.hop_limit ∷ rest))

abbrev pub ipv6_packet : Ipv6Header → List ℕ → List ℕ
ipv6_packet h payload = ipv6_fixed h (h.source ++ (h.destination ++ payload))

-- The first octet holds four bits beside the version; an address is sixteen octets.
pub record IsIpv6Header (h : Ipv6Header) : Type 0 where
  pub flow_small : h.flow < 16
  pub source_full : length h.source ≡ 16
  pub destination_full : length h.destination ≡ 16

pub record UdpHeader : Type 0 where
  pub src_port : ℕ
  pub dst_port : ℕ
  pub udp_length : ℕ
  pub udp_checksum : ℕ

abbrev pub udp_datagram : UdpHeader → List ℕ → List ℕ
udp_datagram u payload =
    u16_to_be u.src_port
    ++ (u16_to_be u.dst_port ++ (u16_to_be u.udp_length ++ (u16_to_be u.udp_checksum ++ payload)))

pub record IsUdpHeader (u : UdpHeader) : Type 0 where
  pub src_small : u.src_port < 2 ^ 16
  pub dst_small : u.dst_port < 2 ^ 16
  pub length_small : u.udp_length < 2 ^ 16
  pub checksum_small : u.udp_checksum < 2 ^ 16

-- The eight octets of an ICMP header.
pub record IcmpHeader : Type 0 where
  pub kind : ℕ
  pub code : ℕ
  pub checksum : ℕ
  pub r0 : ℕ
  pub r1 : ℕ
  pub r2 : ℕ
  pub r3 : ℕ

abbrev pub icmp_message : IcmpHeader → List ℕ → List ℕ
icmp_message m embedded =
    m.kind ∷ m.code ∷ (u16_to_be m.checksum ++ (m.r0 ∷ m.r1 ∷ m.r2 ∷ m.r3 ∷ embedded))

-- An ICMP error, and the start of the UDP packet that it reports on.
pub record IcmpReport : Type 0 where
  pub outer : Ipv4Header
  pub icmp : IcmpHeader
  pub inner : Ipv4Header
  pub udp : UdpHeader
  pub payload : List ℕ

abbrev pub reported : IcmpReport → List ℕ
reported r = udp_datagram r.udp r.payload

abbrev pub icmp_report : IcmpReport → List ℕ
icmp_report r = ipv4_packet r.outer (icmp_message r.icmp (ipv4_packet r.inner (reported r)))

-- The ICMP types 3, 11 and 12 report an error about a packet.
abbrev pub IsErrorType : ℕ → Type 0
IsErrorType kind = (kind ≡ 3) ⊎ (kind ≡ 11) ⊎ (kind ≡ 12)

pub record IsIcmpReport (r : IcmpReport) : Type 0 where
  pub outer_header : IsIpv4Header r.outer
  pub outer_icmp : r.outer.protocol ≡ 1
  pub inner_header : IsIpv4Header r.inner
  pub inner_udp : r.inner.protocol ≡ 17
  pub udp_header : IsUdpHeader r.udp
  pub error : IsErrorType r.icmp.kind
