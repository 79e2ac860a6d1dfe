-- ===== src/Tracker.antt =====
-- server/src/packet_tracker.rs: `PacketTracker`, which joins ICMP errors to the packets sent. The
-- locks are taken by one call at a time, so the calls are functions on the state; a time is a
-- number of milliseconds. `SendOptions` and `TrackedPacketEvent` are of common/src/protocol.rs.
pub mod Matching
mod Tests
pub mod Draining
pub mod Invariant
use netpoke.Prelude.{
  ℕ, ◌+◌, ◌%◌, ◌^◌, Bool, true, false, not, Option, none, some, List, [], ◌∷◌, ◌++◌, String,
  String-discrete, ℕ_discrete, leb, ◌==◌, if◌then◌else◌, ite, length, take, Map, lookup, insert,
  remove, remove_all, keys_where,
}
use netpoke.Net.{SocketAddr, SocketAddr-discrete}
use netpoke.Icmp.{
  EmbeddedUdpInfo, IcmpMessageClass, error, ignore, ttl_expired, max_payload_prefix_size,
}

pub record SendOptions : Type 0 where
  pub ttl : Option ℕ
  pub df_bit : Option Bool
  pub tos : Option ℕ
  pub flow_label : Option ℕ
  pub track_for_ms : ℕ
  pub bypass_dtls : Bool
  pub bypass_sctp_fragmentation : Bool

pub record UdpPacketInfo : Type 0 where
  pub dest_addr : SocketAddr
  pub src_addr : Option SocketAddr
  pub udp_length : ℕ
  pub cleartext : List ℕ
  pub send_options : SendOptions
  pub sent_at : ℕ
  pub conn_id : String
  pub udp_checksum : ℕ

pub record TrackedPacket : Type 0 where
  pub cleartext : List ℕ
  pub udp_packet : List ℕ
  pub sent_at : ℕ
  pub expires_at : ℕ
  pub send_options : SendOptions
  pub dest_addr : SocketAddr
  pub src_port : ℕ
  pub payload_prefix : List ℕ
  pub conn_id : String
  pub udp_checksum : ℕ

pub record ChecksumKey : Type 0 where
  pub dest_addr : SocketAddr
  pub udp_length : ℕ
  pub udp_checksum : ℕ

pub ChecksumKey-discrete : Discrete ChecksumKey
ChecksumKey-discrete = hlevel (ℕ_discrete, SocketAddr-discrete)

-- The destination is kept as an address: its printing is the standard library's.
pub record TrackedPacketEvent : Type 0 where
  pub icmp_packet : List ℕ
  pub udp_packet : List ℕ
  pub tracked_ip_length : ℕ
  pub cleartext : List ℕ
  pub sent_at : ℕ
  pub icmp_received_at : ℕ
  pub send_options : SendOptions
  pub router_ip : Option String
  pub conn_id : String
  pub original_src_port : ℕ
  pub original_dest_addr : SocketAddr

-- The callback is a function of the session layer: here, whether one is set.
pub record PacketTracker : Type 0 where
  pub checksum_index : Map ChecksumKey TrackedPacket
  pub event_queue : List TrackedPacketEvent
  pub icmp_error_callback : Bool

unfoldable pub new : PacketTracker
new = record { checksum_index = []; event_queue = []; icmp_error_callback = false }

unfoldable pub set_icmp_error_callback : PacketTracker → PacketTracker
set_icmp_error_callback t = record t { icmp_error_callback = true }

abbrev pub sent_key : UdpPacketInfo → ChecksumKey
sent_key info = record {
  dest_addr = info.dest_addr;
  udp_length = info.udp_length;
  udp_checksum = info.udp_checksum;
}

abbrev pub tracked_packet : UdpPacketInfo → TrackedPacket
tracked_packet info = record {
  cleartext = info.cleartext;
  udp_packet = [];
  sent_at = info.sent_at;
  expires_at = info.sent_at + info.send_options.track_for_ms;
  send_options = info.send_options;
  dest_addr = info.dest_addr;
  src_port = 0;
  payload_prefix = take max_payload_prefix_size info.cleartext;
  conn_id = info.conn_id;
  udp_checksum = info.udp_checksum;
}

-- One round of the loop of `tracking_receiver_task`.
unfoldable pub receive_tracking : PacketTracker → UdpPacketInfo → PacketTracker
receive_tracking t info =
    if info.send_options.track_for_ms == 0
    then t
    else if not (info.udp_checksum == 0)
    then record t {
      checksum_index =
          insert ChecksumKey-discrete (sent_key info) (tracked_packet info) t.checksum_index;
    }
    else t

abbrev pub embedded_key : EmbeddedUdpInfo → ChecksumKey
embedded_key info = record {
  dest_addr = info.dest_addr;
  udp_length = info.udp_length;
  udp_checksum = info.udp_checksum;
}

-- The sum is a `u16`, which wraps in a release build.
abbrev pub tracked_ip_length : Bool → ℕ → ℕ
tracked_ip_length is_ip6 udp_length = (udp_length + (if is_ip6 then 40 else 20)) % 2 ^ 16

abbrev pub is_error : IcmpMessageClass → Bool
is_error error = true
is_error ignore = false
is_error ttl_expired = false

-- The arguments of one ICMP error, and the time at which it is handled.
pub record IcmpInput : Type 0 where
  pub icmp_packet : List ℕ
  pub icmp_class : IcmpMessageClass
  pub is_ip6 : Bool
  pub embedded_udp_info : EmbeddedUdpInfo
  pub router_ip : Option String
  pub now : ℕ

abbrev pub matched_event : IcmpInput → TrackedPacket → TrackedPacketEvent
matched_event i tracked = record {
  icmp_packet = i.icmp_packet;
  udp_packet = tracked.udp_packet;
  tracked_ip_length = tracked_ip_length i.is_ip6 i.embedded_udp_info.udp_length;
  cleartext = tracked.cleartext;
  sent_at = tracked.sent_at;
  icmp_received_at = i.now;
  send_options = tracked.send_options;
  router_ip = i.router_ip;
  conn_id = tracked.conn_id;
  original_src_port = i.embedded_udp_info.src_port;
  original_dest_addr = i.embedded_udp_info.dest_addr;
}

-- The tail of `match_icmp_error`: an event, or a call of the callback (the second part).
unfoldable pub deliver :
    PacketTracker → IcmpInput → Option TrackedPacket → PacketTracker × Option EmbeddedUdpInfo
deliver t i (some tracked) =
    (record t { event_queue = t.event_queue ++ (matched_event i tracked ∷ []) }, none)
deliver t i none = (
  t,
  if is_error i.icmp_class
      then (if t.icmp_error_callback then some i.embedded_udp_info else none)
      else none,
)

unfoldable pub match_icmp_error : PacketTracker → IcmpInput → PacketTracker × Option EmbeddedUdpInfo
match_icmp_error t i =
    if i.embedded_udp_info.udp_checksum == 0
    then deliver t i none
    else deliver
        (record t {
          checksum_index =
              remove ChecksumKey-discrete (embedded_key i.embedded_udp_info) t.checksum_index;
        })
        i (lookup ChecksumKey-discrete (embedded_key i.embedded_udp_info) t.checksum_index)

unfoldable pub drain_events : PacketTracker → List TrackedPacketEvent × PacketTracker
drain_events t = (t.event_queue, record t { event_queue = [] })

abbrev pub is_conn : String → TrackedPacketEvent → Bool
is_conn conn_id e = ite (String-discrete e.conn_id conn_id) true false

-- The loop that shares the queue out into `matching` and `remaining`.
unfoldable pub share_out :
    String → List TrackedPacketEvent → List TrackedPacketEvent × List TrackedPacketEvent
share_out conn_id [] = ([], [])
share_out conn_id (e ∷ es) =
    let (matching, remaining) = share_out conn_id es in
    if is_conn conn_id e then (e ∷ matching, remaining) else (matching, e ∷ remaining)

unfoldable pub drain_events_for_conn_id :
    PacketTracker → String → List TrackedPacketEvent × PacketTracker
drain_events_for_conn_id t conn_id =
    let (matching, remaining) = share_out conn_id t.event_queue in
    (matching, record t { event_queue = remaining })

unfoldable pub tracked_count : PacketTracker → ℕ
tracked_count t = length t.checksum_index

abbrev pub is_expired : ℕ → TrackedPacket → Bool
is_expired now tracked = leb tracked.expires_at now

unfoldable pub cleanup_expired : PacketTracker → ℕ → PacketTracker
cleanup_expired t now = record t {
  checksum_index =
      remove_all ChecksumKey-discrete (keys_where (is_expired now) t.checksum_index)
        t.checksum_index;
}
