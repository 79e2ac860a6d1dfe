-- ===== src/Access/Admission.antt =====
-- Who is let in: server/src/main.rs gives the iperf3 server of iperf3-server/src/server.rs a callback
-- that asks the cache of server/src/auth_cache.rs.
use netpoke.Prelude.{ℕ, ◌-◌, ◌≡◌, true, false, none, arith, ltb, ite, lookup-insert}
use netpoke.Net.{IpAddr, IpAddr-discrete, v4}
use netpoke.Access.Normal.{normalize_ip, mapped, normalize_ip-mapped, normalize_ip-normalize_ip}
use netpoke.Access.Cache.{AuthAddressCache, Login, record_auth, check_auth, is_authenticated}
use netpoke.Access.Expiry.{check_auth-record_auth}
use netpoke.Access.Iperf.{
  Iperf3Server, AuthCallback, set_auth_callback, add_allowed_ip, is_ip_allowed, is_listed,
}

-- The callback of server/src/main.rs.
unfoldable pub cache_callback : AuthAddressCache → AuthCallback
cache_callback c ip now = is_authenticated c ip now

check_auth-normalize_ip :
    (c : AuthAddressCache) (ip : IpAddr) (now : ℕ)
    → check_auth c (normalize_ip ip) now ≡ check_auth c ip now
unfolding check_auth
check_auth-normalize_ip c ip now = ground (arith, normalize_ip-normalize_ip ip)

-- With the cache as its callback, a server that requires authentication lets an address in just while
-- a login from that address, in either notation, is within the time-out, or if it was let in without
-- that login.
pub is_ip_allowed-record_auth :
    (s : Iperf3Server) (c : AuthAddressCache) (ip client : IpAddr) (login : Login) (at now : ℕ)
    → s.config.require_auth ≡ true
    → is_ip_allowed (set_auth_callback s (cache_callback (record_auth c ip login at))) client now
      ≡ ite
          (IpAddr-discrete (normalize_ip ip) (normalize_ip client))
          (ltb (now - at) c.timeout)
          (is_ip_allowed (set_auth_callback s (cache_callback c)) client now)
unfolding is_ip_allowed set_auth_callback cache_callback is_authenticated
is_ip_allowed-record_auth s c ip client login at now h = ground (
  arith,
  check_auth-normalize_ip (record_auth c ip login at) client now,
  check_auth-normalize_ip c client now,
  check_auth-record_auth c ip client login at now,
)

-- An IPv4 address that is added to the list of the allowed ones in its IPv6 notation is not let in: the
-- list keeps it as given and is asked for the IPv4 address. The server requires authentication, has no
-- callback, and does not list the IPv4 address besides.
pub is_ip_allowed-add_mapped :
    (s : Iperf3Server) (a b c d now : ℕ)
    → s.config.require_auth ≡ true
    → s.auth_callback ≡ none
    → is_listed s (v4 a b c d) ≡ false
    → is_ip_allowed (add_allowed_ip s (mapped a b c d)) (mapped a b c d) now ≡ false
unfolding is_ip_allowed add_allowed_ip
is_ip_allowed-add_mapped s a b c d now h n l = ground (
  arith,
  normalize_ip-mapped a b c d,
  lookup-insert IpAddr-discrete (mapped a b c d) (v4 a b c d) tt s.allowed_ips,
)
