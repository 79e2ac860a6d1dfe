-- ===== src/Access/Tests.antt =====
-- Examples of the Access modules at concrete inputs.
use netpoke.Prelude.{◌≡◌, ◌-◌, refl, true, none, [], ◌∷◌, ltb, ite}
use netpoke.Net.{IpAddr, IpAddr-discrete, v4}
use netpoke.Access.Normal.{normalize_ip, mapped}
use netpoke.Access.Cache
use netpoke.Access.Cache.{
  AuthAddressCache, Login, address_entry, record_auth, refresh_auth, check_auth, cleanup_expired,
}
use netpoke.Access.Iperf.{Iperf3Server, set_auth_callback, is_ip_allowed}
use netpoke.Access.Admission.{cache_callback, is_ip_allowed-record_auth}

abbrev home : IpAddr
home = v4 192 0 2 1

abbrev login : Login
login = record { user_id = "user1"; display_name = none; auth_source = "test" }

abbrev five_minutes : AuthAddressCache
five_minutes = Cache.new 300

abbrev one_login : AuthAddressCache
one_login = record { cache = (home, address_entry home login 1000) ∷ []; timeout = 300000 }

abbrev guarded : Iperf3Server
guarded = record {
  config = record {
    enabled = true;
    host = "0.0.0.0";
    port = 5201;
    max_sessions = 10;
    max_duration_secs = 3600;
    require_auth = true;
    auth_timeout_secs = 300;
    max_bandwidth = 0;
  };
  allowed_ips = [];
  auth_callback = none;
}

is_ip_allowed-record_auth_example :
    is_ip_allowed
      (set_auth_callback guarded (cache_callback (record_auth five_minutes home login 1000)))
      (mapped 192 0 2 1)
      61000
    ≡ ite
        (IpAddr-discrete (normalize_ip home) (normalize_ip (mapped 192 0 2 1)))
        (ltb (61000 - 1000) five_minutes.timeout)
        (is_ip_allowed
          (set_auth_callback guarded (cache_callback five_minutes))
          (mapped 192 0 2 1)
          61000)
is_ip_allowed-record_auth_example =
    is_ip_allowed-record_auth guarded five_minutes home (mapped 192 0 2 1) login 1000 61000 refl
