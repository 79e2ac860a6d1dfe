-- ===== src/Icmp/Tests.antt =====
-- Examples of the Icmp modules at concrete inputs.
use netpoke.Prelude.{◌≡◌, ◌≢◌, refl, [], ◌∷◌}
use netpoke.Fault.{found, panic}
use netpoke.Frame.Wire.{icmp_report}
use netpoke.Frame.Samples.{expired_report, expired_report-IsIcmpReport}
use netpoke.Icmp.Safe.{parse-ne-panic}
use netpoke.Icmp.RoundTrip.{embedded_info, parse_icmp_error-report}
use netpoke.Icmp.{ttl_expired, icmp_class, parse_icmp_error, parse_icmpv6_error}

parse-ne-panic_example :
    (parse_icmp_error (0x45 ∷ 0 ∷ []) ≢ panic) × (parse_icmpv6_error (0x45 ∷ 0 ∷ []) ≢ panic)
parse-ne-panic_example = parse-ne-panic (0x45 ∷ 0 ∷ [])

parse_icmp_error-report_example :
    parse_icmp_error (icmp_report expired_report)
    ≡ found (embedded_info expired_report, ttl_expired)
unfolding icmp_class
parse_icmp_error-report_example =
    parse_icmp_error-report expired_report expired_report-IsIcmpReport refl
