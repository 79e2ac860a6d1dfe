-- ===== src/Capture/Contents.antt =====
-- What `PacketRingBuffer` of server/src/packet_capture.rs holds: the latest packets, in order.
use netpoke.Prelude.{
  ◌+◌, ◌%◌, ◌^◌, ◌<◌, ◌≡◌, ◌↔◌, refl, sym, ap, ◌∙◌, List, [], ◌∷◌, ◌++◌, arith, append_assoc,
  append-nil,
}
use netpoke.Prelude.Rings.{
  take_last, ring_contents, ring_write, IsRing, ring_write-IsRing, ring_contents-ring_write,
  take_last-append, take_last_all, length-ring_contents,
}
use netpoke.Fault.{Outcome, found, panic, ◌>>=◌, slice_from, slice_to, store, remainder}
use netpoke.Capture.Buffer
use netpoke.Capture.Buffer.{
  CapturedPacket, CaptureConfig, PacketRingBuffer, add_packet, get_packets, of_session,
  get_packets_for_session, clear,
}

-- The write position and the vector agree, for a capacity above 0.
abbrev pub IsValid : PacketRingBuffer → Type 0
IsValid b = IsRing b.config.max_packets b.packets b.write_pos

-- The content as a list, oldest first.
abbrev pub contents : PacketRingBuffer → List CapturedPacket
contents b = ring_contents b.config.max_packets b.packets b.write_pos

pub new-IsValid : (c : CaptureConfig) → 0 < c.max_packets → IsValid (Buffer.new c)
unfolding Buffer.new
new-IsValid c h = record { within = h; fits = omega arith; growing = λ _. refl }

pub clear-IsValid : (b : PacketRingBuffer) → IsValid b → IsValid (clear b)
unfolding clear
clear-IsValid b v = record {
  within = omega (arith, v.within);
  fits = omega arith;
  growing = λ _. refl;
}

-- The state after a packet is added, on both branches.
abbrev pub written : PacketRingBuffer → CapturedPacket → PacketRingBuffer
written b p = record b {
  packets = ring_write b.config.max_packets b.packets b.write_pos p;
  write_pos = (b.write_pos + 1) % b.config.max_packets;
  total_captured = (b.total_captured + 1) % 2 ^ 64;
}

pub add_packet-written :
    (b : PacketRingBuffer) (p : CapturedPacket) → IsValid b → add_packet b p ≡ found (written b p)
unfolding add_packet store remainder
add_packet-written b p v = ground (arith, v.within, v.fits, v.growing)

pub get_packets-contents : (b : PacketRingBuffer) → IsValid b → get_packets b ≡ found (contents b)
unfolding get_packets
get_packets-contents b v =
    ground
      (arith, v.within, v.fits, slice_from b.packets b.write_pos, slice_to b.packets b.write_pos)

-- The packets of one capture, in their order of arrival.
unfoldable pub add_all : PacketRingBuffer → List CapturedPacket → Outcome PacketRingBuffer
add_all b [] = found b
add_all b (p ∷ ps) = add_packet b p >>= λ b'. add_all b' ps

contents-le :
    (b : PacketRingBuffer) → IsValid b → take_last b.config.max_packets (contents b) ≡ contents b
contents-le b v =
    take_last_all b.config.max_packets (contents b)
      (omega (arith, length-ring_contents b.config.max_packets b.packets b.write_pos v, v.fits))

-- From a valid buffer, after any number of packets, the export has the last `max_packets` of all that came, oldest first:
-- no packet is lost before the buffer is full, and then the oldest goes first. No call panics.
pub get_packets-add_all :
    (b : PacketRingBuffer) (ps : List CapturedPacket)
    → IsValid b
    → (add_all b ps >>= get_packets) ≡ found (take_last b.config.max_packets (contents b ++ ps))
unfolding add_all
get_packets-add_all b [] v =
    get_packets-contents b v
    ∙ ap found (
        sym (contents-le b v) ∙ ap (take_last b.config.max_packets) (sym (append-nil (contents b))))
get_packets-add_all b (p ∷ ps) v = rw (add_packet-written b p v) (
    get_packets-add_all (written b p) ps
      (ring_write-IsRing b.config.max_packets b.packets b.write_pos p v)
    ∙ ap found (
        ap (λ l. take_last b.config.max_packets (l ++ ps))
          (ring_contents-ring_write b.config.max_packets b.packets b.write_pos p v)
        ∙ take_last-append b.config.max_packets (contents b ++ (p ∷ [])) ps
        ∙ ap (take_last b.config.max_packets) (append_assoc (contents b) (p ∷ []) ps)))

-- The first packet that a new buffer is given panics exactly if its capacity is 0.
pub add_packet-no_room :
    (c : CaptureConfig) (p : CapturedPacket)
    → (add_packet (Buffer.new c) p ≡ panic) ↔ (c.max_packets ≡ 0)
unfolding Buffer.new add_packet store remainder
add_packet-no_room c p = (λ h. ground arith, λ h. ground arith)
