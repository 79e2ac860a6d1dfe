-- ===== src/Capture/Service.antt =====
-- server/src/packet_capture.rs: `PacketCaptureService`, a ring buffer and a session registry. The
-- locks are held for one call each, so that the calls are functions on the state.
use netpoke.Prelude.{ℕ, Bool, none, some, List, String, if◌then◌else◌}
use netpoke.Fault.{Outcome, found, missing, panic, ◌>>=◌, of_option, optional}
use netpoke.Net.{SocketAddr}
use netpoke.Frame.{parse_packet_addresses, is_icmp_error_packet, extract_embedded_destination}
use netpoke.Capture.Buffer
use netpoke.Capture.Buffer.{CapturedPacket, CaptureConfig, PacketRingBuffer}
use netpoke.Capture.Registry
use netpoke.Capture.Registry.{SessionRegistry}
use netpoke.Capture.Pcap.{packets_to_pcap}

pub record PacketCaptureService : Type 0 where
  pub buffer : PacketRingBuffer
  pub config : CaptureConfig
  pub session_registry : SessionRegistry

unfoldable pub new : CaptureConfig → PacketCaptureService
new config = record { buffer = Buffer.new config; config = config; session_registry = Registry.new }

unfoldable pub set_datalink : PacketCaptureService → ℕ → PacketCaptureService
set_datalink s datalink = record s { buffer = Buffer.set_datalink s.buffer datalink }

unfoldable pub register_session :
    PacketCaptureService → SocketAddr → ℕ → String → PacketCaptureService
register_session s client_addr server_port id = record s {
  session_registry = Registry.register s.session_registry client_addr server_port id;
}

unfoldable pub unregister_session : PacketCaptureService → SocketAddr → PacketCaptureService
unregister_session s client_addr = record s {
  session_registry = Registry.unregister s.session_registry client_addr;
}

unfoldable pub has_session_registered : PacketCaptureService → String → Bool
has_session_registered s id = Registry.has_session s.session_registry id

-- The session of the packet embedded in an ICMP error: by its port, then by its address.
unfoldable pub session_of_embedded : SessionRegistry → Outcome SocketAddr → Outcome String
session_of_embedded r (found embedded_dst) = of_option (
    Registry.or_else (Registry.lookup_by_server_port r embedded_dst.port)
      (Registry.lookup r embedded_dst))
session_of_embedded r missing = missing
session_of_embedded r panic = panic

unfoldable pub extract_session_id_from_packet : SessionRegistry → List ℕ → Outcome String
extract_session_id_from_packet r bytes = do
  addrs ← parse_packet_addresses bytes
  elim (Registry.lookup_by_either r addrs.0 addrs.1) [
    | some session_id ↦ found session_id
    | none ↦ is_icmp_error_packet bytes >>= λ is_error.
        if is_error then session_of_embedded r (extract_embedded_destination bytes) else missing
  ]

unfoldable pub add_packet : PacketCaptureService → ℕ → ℕ → ℕ → List ℕ → Outcome PacketCaptureService
add_packet s ts_sec ts_usec orig_len bytes =
    if s.config.enabled
    then (do
      id ← optional (extract_session_id_from_packet s.session_registry bytes)
      buffer ← Buffer.add_packet s.buffer (record {
        ts_sec = ts_sec;
        ts_usec = ts_usec;
        orig_len = orig_len;
        bytes = bytes;
        survey_session_id = id;
      })
      found (record s { buffer = buffer }))
    else found s

unfoldable pub clear : PacketCaptureService → PacketCaptureService
clear s = record s { buffer = Buffer.clear s.buffer }

unfoldable pub generate_pcap : PacketCaptureService → Outcome (List ℕ)
generate_pcap s = do
  packets ← Buffer.get_packets s.buffer
  found (packets_to_pcap packets s.buffer.datalink s.config.snaplen)

unfoldable pub generate_pcap_for_session : PacketCaptureService → String → Outcome (List ℕ)
generate_pcap_for_session s id = do
  packets ← Buffer.get_packets_for_session s.buffer id
  found (packets_to_pcap packets s.buffer.datalink s.config.snaplen)
