-- ===== src/Checksum.antt =====
-- server/src/tracking_channel.rs and the tracking callback of server/src/main.rs: the UDP checksum of
-- a datagram that is sent, and the way of a probe from the socket to the tracker. The two functions
-- build different pseudo-headers, and end in the same loop. A `u32` sum wraps; the folding loop
-- runs on fuel, three tests of its condition.
pub mod Sums
pub mod Receiver
pub mod Tracked
mod Tests
use netpoke.Prelude.{
  ℕ, zero, suc, ◌+◌, ◌-◌, ◌*◌, ◌/◌, ◌%◌, ◌^◌, Bool, true, false, not, ◌||◌, Option, none, some,
  List, [], ◌∷◌, ◌++◌, ◌==◌, if◌then◌else◌, length, String,
}
use netpoke.Net.{u16_to_be}
use netpoke.Net.{IpAddr, v4, v6, SocketAddr}
use netpoke.Tracker.{UdpPacketInfo}

-- `Ipv4Addr` by its octets
pub record Ipv4Addr : Type 0 where
  pub a : ℕ
  pub b : ℕ
  pub c : ℕ
  pub d : ℕ

abbrev pub to_v4 : Ipv4Addr → IpAddr
to_v4 x = v4 x.a x.b x.c x.d

abbrev pub octets_of : Ipv4Addr → List ℕ
octets_of x = x.a ∷ x.b ∷ x.c ∷ x.d ∷ []

-- `x.to_be_bytes()` of a `u32`
abbrev pub u32_to_be : ℕ → List ℕ
u32_to_be x = x / 16777216 % 256 ∷ x / 65536 % 256 ∷ x / 256 % 256 ∷ x % 256 ∷ []

-- The sum over `data.chunks(2)`: a last octet alone has a zero behind it.
unfoldable pub sum_words : ℕ → List ℕ → ℕ
sum_words sum [] = sum
sum_words sum (a ∷ []) = (sum + a * 256) % 2 ^ 32
sum_words sum (a ∷ b ∷ octets) = sum_words ((sum + (a * 256 + b)) % 2 ^ 32) octets

-- `while (sum >> 16) != 0`; `none` is out of fuel.
unfoldable pub fold : ℕ → ℕ → Option ℕ
fold zero sum = none
fold (suc fuel) sum =
    let rest = fold fuel (sum % 65536 + sum / 65536) in if sum / 65536 == 0 then some sum else rest

-- `if data.len() % 2 != 0 { data.push(0); }`
abbrev pub pad : List ℕ → List ℕ
pad octets = if length octets % 2 == 0 then octets else octets ++ (0 ∷ [])

-- `!(sum as u16)`, and 0xFFFF for 0
abbrev pub complement : Option ℕ → Option ℕ
complement none = none
complement (some sum) =
    let checksum = 65535 - sum % 65536 in if checksum == 0 then some 65535 else some checksum

-- The end of both functions.
abbrev pub checksum_of : List ℕ → Option ℕ
checksum_of octets = complement (fold 3 (sum_words 0 (pad octets)))

-- The pseudo-header, and the UDP header up to its checksum.
abbrev pub header_v4 : List ℕ → List ℕ → ℕ → ℕ → ℕ → List ℕ
header_v4 src_ip dest_ip src_port dest_port udp_length =
    src_ip
    ++ (dest_ip
        ++ (0
            ∷ 17
            ∷ (u16_to_be udp_length
                ++ (u16_to_be src_port ++ (u16_to_be dest_port ++ u16_to_be udp_length)))))

abbrev pub header_v6 : List ℕ → List ℕ → ℕ → ℕ → ℕ → List ℕ
header_v6 src_ip dest_ip src_port dest_port udp_length =
    src_ip
    ++ (dest_ip
        ++ (u32_to_be udp_length
            ++ (0
                ∷ 0
                ∷ 0
                ∷ 17
                ∷ (u16_to_be src_port
                    ++ (u16_to_be dest_port ++ u16_to_be (udp_length % 2 ^ 16))))))

unfoldable pub calculate_udp_checksum_v4 : Ipv4Addr → Ipv4Addr → ℕ → ℕ → List ℕ → Option ℕ
calculate_udp_checksum_v4 src_ip dest_ip src_port dest_port payload =
    let udp_length = (8 + length payload) % 2 ^ 16 in
    checksum_of (
      header_v4 (octets_of src_ip) (octets_of dest_ip) src_port dest_port udp_length
      ++ (0 ∷ 0 ∷ payload))

unfoldable pub calculate_udp_checksum_v6 : List ℕ → List ℕ → ℕ → ℕ → List ℕ → Option ℕ
calculate_udp_checksum_v6 src_ip dest_ip src_port dest_port payload =
    let udp_length = (8 + length payload) % 2 ^ 32 in
    checksum_of (header_v6 src_ip dest_ip src_port dest_port udp_length ++ (0 ∷ 0 ∷ payload))

-- What the socket layer tells of a datagram, by pointers that are not null, and the call's time. An
-- IPv6 address is its sixteen octets.
pub record Sent (A : Type 0) : Type 0 where
  pub src_ip : A
  pub src_port : ℕ
  pub dest_ip : A
  pub dest_port : ℕ
  pub udp_length : ℕ
  pub ttl : ℕ
  pub buf : List ℕ
  pub conn_id : String
  pub now : ℕ

-- The callback that `main` installs, called by `track_udp_packet`.
abbrev pub tracking_callback : {A : Type 0} → IpAddr → IpAddr → Sent A → ℕ → UdpPacketInfo
tracking_callback dest src s udp_checksum = record {
  dest_addr = record { ip = dest; port = s.dest_port };
  src_addr = some (record { ip = src; port = s.src_port });
  udp_length = s.udp_length;
  cleartext = s.buf;
  send_options = record {
    ttl = some s.ttl;
    df_bit = some true;
    tos = none;
    flow_label = none;
    track_for_ms = 5000;
    bypass_dtls = false;
    bypass_sctp_fragmentation = false;
  };
  sent_at = s.now;
  conn_id = s.conn_id;
  udp_checksum = udp_checksum;
}

abbrev pub call_back : {A : Type 0} → IpAddr → IpAddr → Sent A → Option ℕ → Option UdpPacketInfo
call_back dest src s none = none
call_back dest src s (some udp_checksum) = some (tracking_callback dest src s udp_checksum)

unfoldable pub netpoke_track_udp_packet : Sent Ipv4Addr → Option UdpPacketInfo
netpoke_track_udp_packet s =
    if length s.buf == 0
    then none
    else call_back (to_v4 s.dest_ip) (to_v4 s.src_ip) s
        (calculate_udp_checksum_v4 s.src_ip s.dest_ip s.src_port s.dest_port s.buf)

unfoldable pub netpoke_track_udp_packet_v6 : Sent (List ℕ) → Option UdpPacketInfo
netpoke_track_udp_packet_v6 s =
    if length s.buf == 0
    then none
    else call_back (v6 s.dest_ip) (v6 s.src_ip) s
        (calculate_udp_checksum_v6 s.src_ip s.dest_ip s.src_port s.dest_port s.buf)
