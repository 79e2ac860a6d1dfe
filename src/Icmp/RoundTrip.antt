-- ===== src/Icmp/RoundTrip.antt =====
-- The parsers of server/src/icmp_listener.rs against the wire formats.
use netpoke.Prelude.{
  ℕ, ◌+◌, ◌*◌, ◌≡◌, ◌≤◌, ap, sym, ◌∙◌, List, [], ◌++◌, arith, length, take, length-append,
  append_assoc, min, subst,
}
use netpoke.Fault.{found, index, slice, slice_window}
use netpoke.Net.{v4, IpAddr, low_nibble}
use netpoke.Frame.Read.{be16, ipv4_at}
use netpoke.Frame.Fields.{
  be16-src_port, be16-dst_port, be16-udp_length, be16-udp_checksum, index-ipv4_version,
  index-ipv4_protocol, ipv4_at-ipv4_destination, length-ipv4, length-ipv4_header, be16-ipv4_payload,
  index-ipv4_payload, ipv4_payload,
}
use netpoke.Frame.Wire.{
  Ipv4Header, ipv4_fixed, ipv4_packet, IsIpv4Header, ipv4_destination, UdpHeader, udp_datagram,
  IcmpReport, icmp_report, reported, IsIcmpReport, icmp_message, IsErrorType,
}
use netpoke.Frame.Embedded.{before_embedded, message-split, length-before_embedded}
use netpoke.Icmp.{EmbeddedUdpInfo, icmp_class, parse_icmp_error}

-- The octets from the payload of a UDP packet over IPv4 on, at most `n` of them.
slice-ipv4_udp :
    (pre : List ℕ) (h : Ipv4Header) (u : UdpHeader) (payload : List ℕ) (n : ℕ)
    → IsIpv4Header h
    → slice (pre ++ ipv4_packet h (udp_datagram u payload)) (length pre + h.words * 4 + 8) (
        min
          (length pre + h.words * 4 + 8 + n)
          (length (pre ++ ipv4_packet h (udp_datagram u payload))))
      ≡ found (take n payload)
slice-ipv4_udp pre h u payload n v =
    let head = (pre ++ ipv4_fixed h h.options) ++ udp_datagram u [] in
    let bytes = pre ++ ipv4_packet h (udp_datagram u payload) in
    let split : bytes ≡ head ++ payload =
      ipv4_payload pre h (udp_datagram u payload)
      ∙ sym (append_assoc (pre ++ ipv4_fixed h h.options) (udp_datagram u []) payload) in
    let long : length head ≡ length pre + h.words * 4 + 8 = omega (
      arith,
      length-append (pre ++ ipv4_fixed h h.options) (udp_datagram u []),
      length-ipv4_header pre h [] v,
    ) in
    subst (λ k. slice bytes k (min (k + n) (length bytes)) ≡ found (take n payload)) long
      (subst
        (λ l. slice l (length head) (min (length head + n) (length l)) ≡ found (take n payload))
        (sym split) (slice_window head payload n))

-- What is known of the datagram that an ICMP error reports on.
abbrev pub embedded_info : IcmpReport → EmbeddedUdpInfo
embedded_info r = record {
  src_port = r.udp.src_port;
  dest_addr = ipv4_destination r.inner r.udp.dst_port;
  udp_length = r.udp.udp_length;
  payload_prefix = take 64 r.payload;
  udp_checksum = r.udp.udp_checksum;
}

-- `parse_icmp_error` from what it reads.
parse_icmp_error-reads :
    (packet : List ℕ) (kind code words dport sport len sum : ℕ) (dst : IpAddr) (prefix : List ℕ)
    → 28 + words * 4 + 8 ≤ length packet
    → 5 ≤ words
    → words ≤ 15
    → IsErrorType kind
    → index packet 20 ≡ found kind
    → index packet 21 ≡ found code
    → index packet 28 ≡ found (64 + words)
    → index packet 37 ≡ found 17
    → ipv4_at packet 44 ≡ found dst
    → be16 packet (28 + words * 4) ≡ found sport
    → be16 packet (28 + words * 4 + 2) ≡ found dport
    → be16 packet (28 + words * 4 + 4) ≡ found len
    → be16 packet (28 + words * 4 + 6) ≡ found sum
    → slice packet (28 + words * 4 + 8) (min (28 + words * 4 + 8 + 64) (length packet))
      ≡ found prefix
    → parse_icmp_error packet
      ≡ found (
        record {
          src_port = sport;
          dest_addr = record { ip = dst; port = dport };
          udp_length = len;
          payload_prefix = prefix;
          udp_checksum = sum;
        },
        icmp_class kind,
      )
unfolding parse_icmp_error
parse_icmp_error-reads packet kind code words dport sport len sum dst prefix long least most error
      i20 i21 i28 i37 a44 w0 w2 w4 w6 p =
    let nibble : low_nibble (64 + words) ≡ words = omega arith in ground (arith, nibble)

module _ (r : IcmpReport) (v : IsIcmpReport r) (w : r.outer.words ≡ 5) where
  head : List ℕ
  head = before_embedded [] r v

  length-head : length head ≡ 28
  unfolding head
  length-head = omega (arith, length-before_embedded [] r v)

  split : icmp_report r ≡ head ++ ipv4_packet r.inner (reported r)
  unfolding head
  split = message-split [] r v

  length-report : length (icmp_report r) ≡ 28 + r.inner.words * 4 + (8 + length r.payload)
  length-report =
      omega
        (arith, ap length split, length-ipv4 head r.inner (reported r) v.inner_header, length-head)

  -- A read of the embedded packet, as a read of the report.
  moved {κ} :
      (P : List ℕ → ℕ → Type κ) (n m : ℕ)
      → n ≡ m
      → P (head ++ ipv4_packet r.inner (reported r)) n
      → P (icmp_report r) m
  moved P n m e h =
      subst (λ l. P l m) (sym split) (subst (P (head ++ ipv4_packet r.inner (reported r))) e h)

  word_at :
      (i x : ℕ)
      → be16 (reported r) i ≡ found x
      → be16 (icmp_report r) (28 + r.inner.words * 4 + i) ≡ found x
  word_at i x e =
      moved (λ l m. be16 l m ≡ found x) (length head + r.inner.words * 4 + i) _
        (omega (arith, length-head))
        (be16-ipv4_payload head r.inner (reported r) v.inner_header i ∙ e)

  prefix_at :
      slice
        (icmp_report r)
        (28 + r.inner.words * 4 + 8)
        (min (28 + r.inner.words * 4 + 8 + 64) (length (icmp_report r)))
      ≡ found (take 64 r.payload)
  prefix_at =
      moved (λ l m. slice l m (min (m + 64) (length l)) ≡ found (take 64 r.payload))
        (length head + r.inner.words * 4 + 8) (28 + r.inner.words * 4 + 8)
        (omega (arith, length-head)) (slice-ipv4_udp head r.inner r.udp r.payload 64 v.inner_header)

  -- The type and the code stand behind the 20 octets of the outer header.
  kind_at : index (icmp_report r) 20 ≡ found r.icmp.kind
  unfolding index
  kind_at =
      subst (λ n. index (icmp_report r) n ≡ found r.icmp.kind) start
        (index-ipv4_payload [] r.outer (icmp_message r.icmp (ipv4_packet r.inner (reported r)))
          v.outer_header 0)
    where
      start : 0 + r.outer.words * 4 + 0 ≡ 20
      start = omega arith

  code_at : index (icmp_report r) 21 ≡ found r.icmp.code
  unfolding index
  code_at =
      subst (λ n. index (icmp_report r) n ≡ found r.icmp.code) start
        (index-ipv4_payload [] r.outer (icmp_message r.icmp (ipv4_packet r.inner (reported r)))
          v.outer_header 1)
    where
      start : 0 + r.outer.words * 4 + 1 ≡ 21
      start = omega arith

  report_parsed : parse_icmp_error (icmp_report r) ≡ found (embedded_info r, icmp_class r.icmp.kind)
  report_parsed =
      parse_icmp_error-reads (icmp_report r) r.icmp.kind r.icmp.code r.inner.words r.udp.dst_port
        r.udp.src_port r.udp.udp_length r.udp.udp_checksum
        (v4 r.inner.d0 r.inner.d1 r.inner.d2 r.inner.d3) (take 64 r.payload)
        (omega (arith, length-report)) v.inner_header.least v.inner_header.most v.error kind_at
        code_at
        (moved (λ l m. index l m ≡ found (64 + r.inner.words)) (length head) 28 length-head
          (index-ipv4_version head r.inner (reported r)))
        (moved (λ l m. index l m ≡ found 17) (length head + 9) 37 (omega (arith, length-head))
          (index-ipv4_protocol head r.inner (reported r) ∙ ap found v.inner_udp))
        (moved (λ l m. ipv4_at l m ≡ found (v4 r.inner.d0 r.inner.d1 r.inner.d2 r.inner.d3))
          (length head + 16) 44 (omega (arith, length-head))
          (ipv4_at-ipv4_destination head r.inner (reported r)))
        (subst (λ n. be16 (icmp_report r) n ≡ found r.udp.src_port) (omega arith)
          (word_at 0 r.udp.src_port (be16-src_port r.udp r.payload v.udp_header)))
        (word_at 2 r.udp.dst_port (be16-dst_port r.udp r.payload v.udp_header))
        (word_at 4 r.udp.udp_length (be16-udp_length r.udp r.payload v.udp_header))
        (word_at 6 r.udp.udp_checksum (be16-udp_checksum r.udp r.payload v.udp_header)) prefix_at

-- From a well-formed ICMP error behind an IP header without options, the listener reads the ports, length,
-- checksum and first 64 payload octets of the datagram that it reports on, and the class of its
-- type. The datagram's own IP header may have options.
pub parse_icmp_error-report :
    (r : IcmpReport)
    → IsIcmpReport r
    → r.outer.words ≡ 5
    → parse_icmp_error (icmp_report r) ≡ found (embedded_info r, icmp_class r.icmp.kind)
parse_icmp_error-report r v w = report_parsed r v w
