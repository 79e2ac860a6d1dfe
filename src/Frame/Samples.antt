-- ===== src/Frame/Samples.antt =====
-- Sample packets that the tests share.
use netpoke.Prelude.{ℕ, List, [], ◌∷◌, arith, inl, inr, refl}
use netpoke.Frame.Wire.{
  Mac, Ipv4Header, IsIpv4Header, UdpHeader, IsUdpHeader, IcmpReport, IsIcmpReport,
}

abbrev pub server_mac : Mac
server_mac = record { a = 2; b = 0; c = 0; d = 0; e = 0; f = 1 }

abbrev pub client_mac : Mac
client_mac = record { a = 2; b = 0; c = 0; d = 0; e = 0; f = 2 }

-- From 10.0.0.7 to 192.168.1.1, over UDP.
abbrev pub client_header : Ipv4Header
client_header = record {
  words = 5;
  tos = 0;
  total_length = 32;
  ident = 1;
  fragment = 0;
  ttl = 64;
  protocol = 17;
  checksum = 0;
  s0 = 10;
  s1 = 0;
  s2 = 0;
  s3 = 7;
  d0 = 192;
  d1 = 168;
  d2 = 1;
  d3 = 1;
  options = [];
}

abbrev pub client_udp : UdpHeader
client_udp = record { src_port = 40000; dst_port = 5000; udp_length = 12; udp_checksum = 0xbeef }

abbrev pub payload : List ℕ
payload = 1 ∷ 2 ∷ 3 ∷ 4 ∷ []

abbrev pub long_payload : List ℕ
long_payload = 1 ∷ 2 ∷ 3 ∷ 4 ∷ 5 ∷ 6 ∷ 7 ∷ 8 ∷ 9 ∷ 10 ∷ 11 ∷ 12 ∷ 13 ∷ 14 ∷ []

-- A router at 10.0.0.254 reports to the server at 192.168.1.1 that a datagram of the server to the
-- client, from port 5000 to port 40000, has lived too long.
abbrev pub expired_report : IcmpReport
expired_report = record {
  outer = record client_header { protocol = 1; s3 = 254 };
  icmp = record { kind = 11; code = 0; checksum = 0; r0 = 0; r1 = 0; r2 = 0; r3 = 0 };
  inner = record client_header {
    s0 = 192;
    s1 = 168;
    s2 = 1;
    s3 = 1;
    d0 = 10;
    d1 = 0;
    d2 = 0;
    d3 = 7;
  };
  udp = record client_udp { src_port = 5000; dst_port = 40000 };
  payload = payload;
}

pub client_header-IsIpv4Header : IsIpv4Header client_header
client_header-IsIpv4Header = omega arith

pub client_udp-IsUdpHeader : IsUdpHeader client_udp
client_udp-IsUdpHeader = omega arith

pub expired_report-IsIcmpReport : IsIcmpReport expired_report
expired_report-IsIcmpReport = record {
  outer_header = omega arith;
  outer_icmp = refl;
  inner_header = omega arith;
  inner_udp = refl;
  udp_header = omega arith;
  error = inr (inl refl);
}
