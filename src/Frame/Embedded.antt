-- ===== src/Frame/Embedded.antt =====
-- An ICMP error over IPv4 that carries the start of a UDP packet, as the parsers of
-- server/src/packet_capture.rs read it.
use netpoke.Prelude.{
  ℕ, ◌+◌, ◌*◌, ◌≡◌, sym, ◌∙◌, [], List, ◌++◌, true, arith, length, length-append, append_assoc,
}
use netpoke.Fault.{found, index}
use netpoke.Frame.Fields.{
  be16-dst_port, index-ipv4_version, index-ipv4_protocol, ipv4_at-ipv4_source,
  ipv4_at-ipv4_destination, length-ipv4, length-ipv4_header, be16-ipv4_payload, index-ipv4_payload,
  ipv4_payload,
}
use netpoke.Frame.Wire.{
  Mac, ethernet, ipv4_fixed, ipv4_packet, ipv4_source, ipv4_destination, icmp_message, IcmpReport,
  reported, icmp_report, IsIcmpReport,
}
use netpoke.Frame.RoundTrip.{link_start-ethernet}
use netpoke.Frame.{
  is_icmpv4_error, is_icmp_error_packet, extract_embedded_ipv4_destination,
  extract_embedded_destination, parse_packet_addresses, parse_ipv4_udp_addresses,
}

module _ (pre : List ℕ) (r : IcmpReport) (v : IsIcmpReport r) where
  -- All that stands before the embedded packet.
  abbrev pub before_embedded : List ℕ
  before_embedded = (pre ++ ipv4_fixed r.outer r.outer.options) ++ icmp_message r.icmp []

  pub message-split : pre ++ icmp_report r ≡ before_embedded ++ ipv4_packet r.inner (reported r)
  message-split =
      ipv4_payload pre r.outer (icmp_message r.icmp (ipv4_packet r.inner (reported r)))
      ∙ sym (
          append_assoc (pre ++ ipv4_fixed r.outer r.outer.options) (icmp_message r.icmp [])
            (ipv4_packet r.inner (reported r)))

  pub length-before_embedded : length before_embedded ≡ length pre + r.outer.words * 4 + 8
  length-before_embedded = omega (
    arith,
    length-append (pre ++ ipv4_fixed r.outer r.outer.options) (icmp_message r.icmp []),
    length-ipv4_header pre r.outer [] v.outer_header,
  )

  embedded_ipv4-report :
      extract_embedded_ipv4_destination (pre ++ icmp_report r) (length pre)
      ≡ found (ipv4_destination r.inner r.udp.dst_port)
  unfolding extract_embedded_ipv4_destination
  embedded_ipv4-report = ground (
    arith,
    message-split,
    length-before_embedded,
    index-ipv4_version pre r.outer (icmp_message r.icmp (ipv4_packet r.inner (reported r))),
    index-ipv4_version before_embedded r.inner (reported r),
    index-ipv4_protocol before_embedded r.inner (reported r),
    ipv4_at-ipv4_destination before_embedded r.inner (reported r),
    length-ipv4 before_embedded r.inner (reported r) v.inner_header,
    be16-ipv4_payload before_embedded r.inner (reported r) v.inner_header 2,
    be16-dst_port r.udp r.payload v.udp_header,
  )

  is_icmpv4_error-report : is_icmpv4_error (pre ++ icmp_report r) (length pre) ≡ found true
  unfolding is_icmpv4_error index
  is_icmpv4_error-report =
      let message = icmp_message r.icmp (ipv4_packet r.inner (reported r)) in
      ground (
        arith,
        v.error,
        v.outer_icmp,
        index-ipv4_version pre r.outer message,
        index-ipv4_protocol pre r.outer message,
        index-ipv4_payload pre r.outer message v.outer_header 0,
        length-ipv4 pre r.outer message v.outer_header,
      )

  -- The addresses of the report itself, with no ports.
  parse_ipv4-report :
      parse_ipv4_udp_addresses (pre ++ icmp_report r) (length pre)
      ≡ found (ipv4_source r.outer 0, ipv4_destination r.outer 0)
  unfolding parse_ipv4_udp_addresses
  parse_ipv4-report =
      let message = icmp_message r.icmp (ipv4_packet r.inner (reported r)) in
      ground (
        arith,
        v.outer_icmp,
        index-ipv4_version pre r.outer message,
        index-ipv4_protocol pre r.outer message,
        ipv4_at-ipv4_source pre r.outer message,
        ipv4_at-ipv4_destination pre r.outer message,
        length-ipv4 pre r.outer message v.outer_header,
      )

-- Of a well-formed ICMP error over IPv4 in an Ethernet frame the parsers find the addresses (port 0), that it
-- is an error, and the destination of the datagram that it reports on.
pub extract_embedded_destination-report :
    (dst src : Mac) (r : IcmpReport)
    → IsIcmpReport r
    → let frame = ethernet dst src 0x0800 (icmp_report r) in
      (parse_packet_addresses frame ≡ found (ipv4_source r.outer 0, ipv4_destination r.outer 0))
      × (is_icmp_error_packet frame ≡ found true)
      × (extract_embedded_destination frame ≡ found (ipv4_destination r.inner r.udp.dst_port))
unfolding parse_packet_addresses is_icmp_error_packet extract_embedded_destination
extract_embedded_destination-report dst src r v =
    let pre = ethernet dst src 0x0800 [] in
    let message = icmp_message r.icmp (ipv4_packet r.inner (reported r)) in
    ground (
      arith,
      link_start-ethernet dst src (icmp_report r),
      index-ipv4_version pre r.outer message,
      length-ipv4 pre r.outer message v.outer_header,
      length-ipv4 [] r.inner (reported r) v.inner_header,
      parse_ipv4-report pre r v,
      is_icmpv4_error-report pre r v,
      embedded_ipv4-report pre r v,
    )
