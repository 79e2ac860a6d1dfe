-- ===== src/Frame/Tests.antt =====
-- Examples of the Frame modules at concrete inputs.
use netpoke.Prelude.{◌≡◌, refl, true}
use netpoke.Fault.{found}
use netpoke.Net.{v4}
use netpoke.Frame.Wire.{
  ethernet, ipv4_packet, udp_datagram, icmp_report, ipv4_source, ipv4_destination,
}
use netpoke.Frame.Samples.{
  server_mac, client_mac, client_header, client_udp, payload, expired_report,
  client_header-IsIpv4Header, client_udp-IsUdpHeader, expired_report-IsIcmpReport,
}
use netpoke.Frame.RoundTrip.{parse_packet_addresses-ipv4}
use netpoke.Frame.Embedded.{extract_embedded_destination-report}
use netpoke.Frame.{parse_packet_addresses, is_icmp_error_packet, extract_embedded_destination}

parse_packet_addresses-ipv4_example :
    parse_packet_addresses (
      ethernet server_mac client_mac 0x0800
        (ipv4_packet client_header (udp_datagram client_udp payload)))
    ≡ found (record { ip = v4 10 0 0 7; port = 40000 }, record { ip = v4 192 168 1 1; port = 5000 })
parse_packet_addresses-ipv4_example =
    parse_packet_addresses-ipv4 server_mac client_mac client_header client_udp payload
      client_header-IsIpv4Header client_udp-IsUdpHeader refl

extract_embedded_destination-report_example :
    let frame = ethernet server_mac client_mac 0x0800 (icmp_report expired_report) in
    (parse_packet_addresses frame
      ≡ found (ipv4_source expired_report.outer 0, ipv4_destination expired_report.outer 0))
    × (is_icmp_error_packet frame ≡ found true)
    × (extract_embedded_destination frame ≡ found (ipv4_destination expired_report.inner 40000))
extract_embedded_destination-report_example =
    extract_embedded_destination-report server_mac client_mac expired_report
      expired_report-IsIcmpReport
