-- ===== src/Capture/Pcap.antt =====
-- server/src/packet_capture.rs: `packets_to_pcap`, which writes a capture file.
use netpoke.Prelude.{ℕ, ◌%◌, ◌^◌, List, [], ◌++◌, ◌∷◌, length}
use netpoke.Net.{u16_to_le, u32_to_le}
use netpoke.Capture.Buffer.{CapturedPacket}

unfoldable pub file_header : ℕ → ℕ → List ℕ
file_header datalink snaplen =
    u32_to_le 0xa1b2c3d4
    ++ (u16_to_le 2
        ++ (u16_to_le 4
            ++ (u32_to_le 0 ++ (u32_to_le 0 ++ (u32_to_le snaplen ++ u32_to_le datalink)))))

-- `as u32` of a time or a length.
unfoldable pub packet_record : CapturedPacket → List ℕ
packet_record p =
    u32_to_le (p.ts_sec % 2 ^ 32)
    ++ (u32_to_le (p.ts_usec % 2 ^ 32)
        ++ (u32_to_le (length p.bytes % 2 ^ 32) ++ (u32_to_le p.orig_len ++ p.bytes)))

unfoldable pub packet_records : List CapturedPacket → List ℕ
packet_records [] = []
packet_records (p ∷ ps) = packet_record p ++ packet_records ps

unfoldable pub packets_to_pcap : List CapturedPacket → ℕ → ℕ → List ℕ
packets_to_pcap packets datalink snaplen = file_header datalink snaplen ++ packet_records packets
