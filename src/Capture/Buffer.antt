-- ===== src/Capture/Buffer.antt =====
-- server/src/packet_capture.rs: `CapturedPacket`, `CaptureConfig` and `PacketRingBuffer`.
-- An `i64` or `i32` is kept as its bit pattern, so that a cast to `u32` is a remainder.
use netpoke.Prelude.{
  ℕ, ◌+◌, ◌^◌, ◌%◌, Bool, true, false, Option, none, some, List, [], ◌∷◌, ◌++◌, String,
  String-discrete, ltb, if◌then◌else◌, length, ite,
}
use netpoke.Fault.{Outcome, found, ◌>>=◌, slice, store, remainder}

pub record CapturedPacket : Type 0 where
  pub ts_sec : ℕ
  pub ts_usec : ℕ
  pub orig_len : ℕ
  pub bytes : List ℕ
  pub survey_session_id : Option String

pub record CaptureConfig : Type 0 where
  pub max_packets : ℕ
  pub snaplen : ℕ
  pub interface : String
  pub enabled : Bool
  pub promiscuous : Bool

pub record PacketRingBuffer : Type 0 where
  pub config : CaptureConfig
  pub packets : List CapturedPacket
  pub write_pos : ℕ
  pub total_captured : ℕ
  pub datalink : ℕ

pub record CaptureStats : Type 0 where
  pub packets_in_buffer : ℕ
  pub max_packets : ℕ
  pub total_captured : ℕ
  pub snaplen : ℕ

unfoldable pub new : CaptureConfig → PacketRingBuffer
new config = record {
  config = config;
  packets = [];
  write_pos = 0;
  total_captured = 0;
  datalink = 1;
}

unfoldable pub set_datalink : PacketRingBuffer → ℕ → PacketRingBuffer
set_datalink b datalink = record b { datalink = datalink }

-- The packet is the record that the method builds from its arguments.
unfoldable pub add_packet : PacketRingBuffer → CapturedPacket → Outcome PacketRingBuffer
add_packet b packet = do
  packets ←
      if ltb (length b.packets) b.config.max_packets
      then found (b.packets ++ (packet ∷ []))
      else store b.packets b.write_pos packet
  write_pos ← remainder (b.write_pos + 1) b.config.max_packets
  found (record b {
    packets = packets;
    write_pos = write_pos;
    total_captured = (b.total_captured + 1) % 2 ^ 64;
  })

unfoldable pub get_packets : PacketRingBuffer → Outcome (List CapturedPacket)
get_packets b = if ltb (length b.packets) b.config.max_packets then found b.packets else (do
  oldest ← slice b.packets b.write_pos (length b.packets)
  newest ← slice b.packets 0 b.write_pos
  found (oldest ++ newest))

abbrev pub is_session : String → Option String → Bool
is_session s none = false
is_session s (some t) = ite (String-discrete t s) true false

-- `.into_iter().filter(…).collect()`
unfoldable pub of_session : String → List CapturedPacket → List CapturedPacket
of_session s [] = []
of_session s (p ∷ ps) =
    if is_session s p.survey_session_id then p ∷ of_session s ps else of_session s ps

unfoldable pub get_packets_for_session : PacketRingBuffer → String → Outcome (List CapturedPacket)
get_packets_for_session b s = do all_packets ← get_packets b; found (of_session s all_packets)

unfoldable pub stats : PacketRingBuffer → CaptureStats
stats b = record {
  packets_in_buffer = length b.packets;
  max_packets = b.config.max_packets;
  total_captured = b.total_captured;
  snaplen = b.config.snaplen;
}

unfoldable pub clear : PacketRingBuffer → PacketRingBuffer
clear b = record b { packets = []; write_pos = 0 }
