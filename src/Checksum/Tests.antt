-- ===== src/Checksum/Tests.antt =====
-- Examples of the Checksum modules: a probe of three octets.
use netpoke.Prelude.{false, refl, ◌≡◌, ◌≤◌, ◌<◌, ℕ, some, List, [], ◌∷◌, arith}
use netpoke.Checksum.{Ipv4Addr, Sent, calculate_udp_checksum_v4, netpoke_track_udp_packet}
use netpoke.Checksum.Receiver.{IsAllOnes, received_v4, calculate_udp_checksum_v4-IsAllOnes}
use netpoke.Checksum.Tracked.{IsTraced, netpoke_track_udp_packet-IsTraced}
use netpoke.Net.{v4}
use netpoke.Tracker.{IcmpInput, new}
use netpoke.Icmp.{error}

abbrev here : Ipv4Addr
here = record { a = 192; b = 168; c = 1; d = 1 }

abbrev there : Ipv4Addr
there = record { a = 10; b = 0; c = 0; d = 255 }

abbrev octets : List ℕ
octets = 1 ∷ 2 ∷ 255 ∷ []

abbrev here_v6 : List ℕ
here_v6 = 32 ∷ 1 ∷ 13 ∷ 184 ∷ 0 ∷ 0 ∷ 0 ∷ 0 ∷ 0 ∷ 0 ∷ 0 ∷ 0 ∷ 0 ∷ 0 ∷ 0 ∷ 1 ∷ []

abbrev probe : Sent Ipv4Addr
probe = record {
  src_ip = here;
  src_port = 5000;
  dest_ip = there;
  dest_port = 6000;
  udp_length = 11;
  ttl = 3;
  buf = octets;
  conn_id = "c";
  now = 100;
}

calculate_udp_checksum_v4-IsAllOnes_example :
    (c : ℕ) × (calculate_udp_checksum_v4 here there 5000 6000 octets ≡ some c)
    × (1 ≤ c)
    × (c < 65536)
    × IsAllOnes (received_v4 here there 5000 6000 octets c)
calculate_udp_checksum_v4-IsAllOnes_example =
    calculate_udp_checksum_v4-IsAllOnes here there 5000 6000 octets (ground arith) (ground arith)
      (ground arith) (omega arith)

abbrev report : IcmpInput
report = record {
  icmp_packet = [];
  icmp_class = error;
  is_ip6 = false;
  embedded_udp_info = record {
    src_port = 5000;
    dest_addr = record { ip = v4 10 0 0 255; port = 6000 };
    udp_length = 11;
    udp_checksum = 2101;
    payload_prefix = [];
  };
  router_ip = some "10.0.0.254";
  now = 120;
}

netpoke_track_udp_packet-IsTraced_example :
    IsTraced probe (v4 10 0 0 255) new report (netpoke_track_udp_packet probe)
netpoke_track_udp_packet-IsTraced_example =
    netpoke_track_udp_packet-IsTraced probe 2101 new report (ground arith) (ground arith)
      (ground arith) (omega arith) (omega arith) (omega arith, omega arith, (omega arith, refl))
      (record { address = refl; size = refl; sum = refl })
