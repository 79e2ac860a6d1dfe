-- ===== src/Capture/Tests.antt =====
-- Examples of the Capture modules at concrete inputs.
use netpoke.Prelude.{ℕ, ◌≡◌, refl, true, none, some, List, [], ◌∷◌, arith, map}
use netpoke.Fault.{found, ◌>>=◌, of_option}
use netpoke.Frame.Wire.{
  ethernet, ipv4_packet, udp_datagram, icmp_report, ipv4_source, ipv4_destination,
}
use netpoke.Frame.Samples.{
  server_mac, client_mac, client_header, client_udp, payload, expired_report,
  client_header-IsIpv4Header, client_udp-IsUdpHeader, expired_report-IsIcmpReport,
}
use netpoke.Capture.Buffer
use netpoke.Capture.Buffer.{CapturedPacket, CaptureConfig, get_packets, get_packets_for_session}
use netpoke.Capture.Contents.{IsValid, written, add_all, new-IsValid, get_packets-add_all}
use netpoke.Capture.Registry
use netpoke.Capture.Registry.{
  SessionRegistry, register, unregister, lookup, lookup_by_server_port, has_session, or_else,
}
use netpoke.Capture.Lookups.{lookup-new, lookup-register}
use netpoke.Capture.Service
use netpoke.Capture.Service.{extract_session_id_from_packet}
use netpoke.Capture.Tagging.{
  tagged, extract_session_id-from_client, extract_session_id-to_client, extract_session_id-report,
  add_packet-total,
}
use netpoke.Capture.Pcap.{packets_to_pcap}
use netpoke.Capture.PcapReader.{read_file, to_record, read_file-packets_to_pcap}

abbrev two_slots : CaptureConfig
two_slots = record {
  max_packets = 2;
  snaplen = 65535;
  interface = "";
  enabled = true;
  promiscuous = true;
}

abbrev packet : ℕ → CapturedPacket
packet n = record {
  ts_sec = n;
  ts_usec = 0;
  orig_len = 3;
  bytes = n ∷ n ∷ n ∷ [];
  survey_session_id = some "s1";
}

abbrev three : List CapturedPacket
three = packet 1 ∷ packet 2 ∷ packet 3 ∷ []

-- Three packets into two slots: the first is gone.
get_packets-add_all_example :
    (add_all (Buffer.new two_slots) three >>= get_packets) ≡ found (packet 2 ∷ packet 3 ∷ [])
unfolding Buffer.new
get_packets-add_all_example =
    get_packets-add_all (Buffer.new two_slots) three (new-IsValid two_slots (omega arith))

add_packet-total_example :
    IsValid (written (Buffer.new two_slots) (tagged Registry.new 1 2 3 payload))
unfolding Service.new
add_packet-total_example =
    (add_packet-total (Service.new two_slots) 1 2 3 payload (new-IsValid two_slots (omega arith))).1

extract_session_id-from_client_example :
    extract_session_id_from_packet
      (register Registry.new (ipv4_source client_header 40000) 5000 "s1")
      (ethernet server_mac client_mac 0x0800
        (ipv4_packet client_header (udp_datagram client_udp payload)))
    ≡ found "s1"
extract_session_id-from_client_example =
    extract_session_id-from_client Registry.new server_mac client_mac client_header client_udp
      payload 5000 "s1" client_header-IsIpv4Header client_udp-IsUdpHeader refl

-- Here the destination is what is registered.
source_unknown :
    lookup
      (register Registry.new (ipv4_destination client_header 5000) 0 "s1")
      (ipv4_source client_header 40000)
    ≡ none
source_unknown = ground (
  arith,
  lookup-register Registry.new (ipv4_destination client_header 5000)
      (ipv4_source client_header 40000) 0 "s1",
  lookup-new (ipv4_source client_header 40000),
)

extract_session_id-to_client_example :
    extract_session_id_from_packet
      (register Registry.new (ipv4_destination client_header 5000) 0 "s1")
      (ethernet server_mac client_mac 0x0800
        (ipv4_packet client_header (udp_datagram client_udp payload)))
    ≡ found "s1"
extract_session_id-to_client_example =
    extract_session_id-to_client Registry.new server_mac client_mac client_header client_udp payload
      0 "s1" client_header-IsIpv4Header client_udp-IsUdpHeader refl source_unknown

abbrev registered : SessionRegistry
registered = register Registry.new (ipv4_destination expired_report.inner 40000) 5000 "s1"

router_unknown :
    Registry.lookup_by_either registered
      (ipv4_source expired_report.outer 0)
      (ipv4_destination expired_report.outer 0)
    ≡ none
unfolding Registry.lookup_by_either
router_unknown =
    let client = ipv4_destination expired_report.inner 40000 in
    ground (
      arith,
      lookup-register Registry.new client (ipv4_source expired_report.outer 0) 5000 "s1",
      lookup-register Registry.new client (ipv4_destination expired_report.outer 0) 5000 "s1",
      lookup-new (ipv4_source expired_report.outer 0),
      lookup-new (ipv4_destination expired_report.outer 0),
    )

extract_session_id-report_example :
    extract_session_id_from_packet registered
      (ethernet server_mac client_mac 0x0800 (icmp_report expired_report))
    ≡ of_option (
        or_else
          (lookup_by_server_port registered 40000)
          (lookup registered (ipv4_destination expired_report.inner 40000)))
extract_session_id-report_example =
    extract_session_id-report registered server_mac client_mac expired_report
      expired_report-IsIcmpReport router_unknown

read_file-packets_to_pcap_example :
    read_file (packets_to_pcap three 1 65535)
    ≡ some (record { snaplen = 65535; link_type = 1; records = map to_record three })
read_file-packets_to_pcap_example =
    read_file-packets_to_pcap three 1 65535 (omega arith) (omega arith) (omega arith)
