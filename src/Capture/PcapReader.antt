-- ===== src/Capture/PcapReader.antt =====
-- A reader of libpcap files (microsecond times, little-endian), written down from the format, and
-- that it gets back what `packets_to_pcap` of server/src/packet_capture.rs wrote.
use netpoke.Prelude.{
  ℕ, zero, suc, ◌+◌, ◌*◌, ◌%◌, ◌^◌, ◌<◌, ◌≡◌, refl, ap, ◌∙◌, Option, none, some, List, [], ◌∷◌,
  ◌++◌, arith, leb, ◌==◌, ◌&&◌, if◌then◌else◌, length, take, drop, map, All, length-append,
  take-append_length, drop-append_length, le→leb,
}
use netpoke.Net.{u32_to_le, u32_of_le, u32_of_le-u32_to_le}
use netpoke.Capture.Buffer.{CapturedPacket}
use netpoke.Capture.Pcap.{file_header, packet_record, packet_records, packets_to_pcap}

pub record PcapRecord : Type 0 where
  pub ts_sec : ℕ
  pub ts_usec : ℕ
  pub orig_len : ℕ
  pub bytes : List ℕ

pub record PcapFile : Type 0 where
  pub snaplen : ℕ
  pub link_type : ℕ
  pub records : List PcapRecord

infixl 5 ◌>>=◌
abbrev ◌>>=◌ : {A B : Type 0} → Option A → (A → Option B) → Option B
none >>= f = none
some a >>= f = f a

unfoldable pub read_u32 : List ℕ → Option (ℕ × List ℕ)
read_u32 (a ∷ b ∷ c ∷ d ∷ rest) = some (u32_of_le a b c d, rest)
read_u32 other = none

unfoldable pub read_record : List ℕ → Option (PcapRecord × List ℕ)
read_record input = do
  (ts_sec, r1) ← read_u32 input
  (ts_usec, r2) ← read_u32 r1
  (incl_len, r3) ← read_u32 r2
  (orig_len, r4) ← read_u32 r3
  if leb incl_len (length r4)
      then some (
        record {
          ts_sec = ts_sec;
          ts_usec = ts_usec;
          orig_len = orig_len;
          bytes = take incl_len r4;
        },
        drop incl_len r4,
      )
      else none

-- Records up to the end of the file.
unfoldable pub read_records : ℕ → List ℕ → Option (List PcapRecord)
read_records zero input = none
read_records (suc fuel) [] = some []
read_records (suc fuel) (x ∷ input) =
    read_record (x ∷ input) >>= λ r. read_records fuel r.1 >>= λ rs. some (r.0 ∷ rs)

read_records-nonempty :
    (fuel : ℕ) (input : List ℕ)
    → 0 < length input
    → read_records (suc fuel) input
      ≡ (read_record input >>= λ r. read_records fuel r.1 >>= λ rs. some (r.0 ∷ rs))
unfolding read_records
read_records-nonempty fuel [] h = absurd (omega arith)
read_records-nonempty fuel (x ∷ input) h = refl

-- The header of 24 octets, the records behind it; the fuel is the length of the file.
unfoldable pub read_file : List ℕ → Option PcapFile
read_file input = do
  (magic, r1) ← read_u32 input
  (version, r2) ← read_u32 r1
  (zone, r3) ← read_u32 r2
  (accuracy, r4) ← read_u32 r3
  (snaplen, r5) ← read_u32 r4
  (link_type, r6) ← read_u32 r5
  if magic == 0xa1b2c3d4 && version == 2 + 4 * 65536
      then (read_records (suc (length r6)) r6 >>= λ rs.
          some (record { snaplen = snaplen; link_type = link_type; records = rs }))
      else none

-- The lengths of a packet fit their fields.
pub record Fits (p : CapturedPacket) : Type 0 where
  pub captured : length p.bytes < 2 ^ 32
  pub original : p.orig_len < 2 ^ 32

-- A record keeps the lower 32 bits of the times.
abbrev pub to_record : CapturedPacket → PcapRecord
to_record p = record {
  ts_sec = p.ts_sec % 2 ^ 32;
  ts_usec = p.ts_usec % 2 ^ 32;
  orig_len = p.orig_len;
  bytes = p.bytes;
}

read_u32-u32_to_le :
    (x : ℕ) (rest : List ℕ) → x < 2 ^ 32 → read_u32 (u32_to_le x ++ rest) ≡ some (x, rest)
unfolding read_u32
read_u32-u32_to_le x rest h = ap (λ n. some (n, rest)) (u32_of_le-u32_to_le x h)

read_record-packet_record :
    (p : CapturedPacket) (rest : List ℕ)
    → Fits p
    → read_record (packet_record p ++ rest) ≡ some (to_record p, rest)
unfolding read_record packet_record
read_record-packet_record p rest f = rw (
  read_u32-u32_to_le (p.ts_sec % 2 ^ 32) _ (omega arith),
  read_u32-u32_to_le (p.ts_usec % 2 ^ 32) _ (omega arith),
  read_u32-u32_to_le (length p.bytes % 2 ^ 32) _ (omega arith),
  read_u32-u32_to_le p.orig_len _ f.original,
  exact,
  le→leb (length p.bytes) (length (p.bytes ++ rest)) (omega (arith, length-append p.bytes rest)),
  take-append_length p.bytes rest,
  drop-append_length p.bytes rest,
)
  where
    exact : length p.bytes % 2 ^ 32 ≡ length p.bytes
    exact = omega (arith, f.captured)

length-packet_record : (p : CapturedPacket) → length (packet_record p) ≡ 16 + length p.bytes
unfolding packet_record
length-packet_record p = omega arith

read_records-cons :
    (fuel : ℕ) (p : CapturedPacket) (ps : List CapturedPacket)
    → Fits p
    → read_records fuel (packet_records ps) ≡ some (map to_record ps)
    → read_records (suc fuel) (packet_record p ++ packet_records ps) ≡ some (map to_record (p ∷ ps))
unfolding read_records
read_records-cons fuel p ps f ih =
    read_records-nonempty fuel (packet_record p ++ packet_records ps)
      (omega (arith, length-append (packet_record p) (packet_records ps), length-packet_record p))
    ∙ rw (read_record-packet_record p (packet_records ps) f, ih)

read_records-packet_records :
    (ps : List CapturedPacket) (fuel : ℕ)
    → All Fits ps
    → length (packet_records ps) < fuel
    → read_records fuel (packet_records ps) ≡ some (map to_record ps)
unfolding read_records packet_records
read_records-packet_records ps zero f h = absurd (omega arith)
read_records-packet_records [] (suc fuel) f h = refl
read_records-packet_records (p ∷ ps) (suc fuel) f h = read_records-cons fuel p ps f.0 (
    read_records-packet_records ps fuel f.1
      (omega (arith, length-append (packet_record p) (packet_records ps), length-packet_record p)))

-- A capture file reads back as its header fields and its packets, in order and octet for octet, if
-- the lengths fit their 32-bit fields; the session tags are not in it.
pub read_file-packets_to_pcap :
    (ps : List CapturedPacket) (datalink snaplen : ℕ)
    → All Fits ps
    → datalink < 2 ^ 32
    → snaplen < 2 ^ 32
    → read_file (packets_to_pcap ps datalink snaplen)
      ≡ some (record { snaplen = snaplen; link_type = datalink; records = map to_record ps })
unfolding read_file packets_to_pcap file_header read_u32
read_file-packets_to_pcap ps datalink snaplen f hd hs = rw (
  u32_of_le-u32_to_le snaplen hs,
  u32_of_le-u32_to_le datalink hd,
  read_records-packet_records ps (suc (length (packet_records ps))) f (omega arith),
)
