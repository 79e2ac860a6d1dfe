-- ===== src/Access/Expiry.antt =====
-- How long server/src/auth_cache.rs remembers a login.
use netpoke.Prelude.{
  ℕ, ◌-◌, ◌≤◌, ◌≡◌, refl, not, Option, none, some, arith, ltb, ite, if◌then◌else◌, lookup,
  lookup-insert, IsUnique, lookup-remove_all-keys_where,
}
use netpoke.Net.{IpAddr, IpAddr-discrete}
use netpoke.Access.Normal.{normalize_ip}
use netpoke.Access.Cache.{
  AuthAddressCache, AuthenticatedAddress, Login, address_entry, record_auth, refresh_auth,
  check_auth, is_valid, cleanup_expired,
}

-- After a login from `ip`, an address is answered with that login as long as it is the same address,
-- in either notation, and the time-out has not passed; other addresses are answered as before.
pub check_auth-record_auth :
    (c : AuthAddressCache) (ip other : IpAddr) (login : Login) (at now : ℕ)
    → check_auth (record_auth c ip login at) other now
      ≡ ite
          (IpAddr-discrete (normalize_ip ip) (normalize_ip other))
          (if ltb (now - at) c.timeout then some (address_entry ip login at) else none)
          (check_auth c other now)
unfolding check_auth record_auth
check_auth-record_auth c ip other login at now = ground (
  arith,
  lookup-insert IpAddr-discrete (normalize_ip ip) (normalize_ip other) (address_entry ip login at)
      c.cache,
)

refreshed :
    (c : AuthAddressCache) (ip other : IpAddr) (at now : ℕ) (o : Option AuthenticatedAddress)
    → lookup IpAddr-discrete (normalize_ip ip) c.cache ≡ o
    → let (known, c') = refresh_auth c ip at in
      check_auth c' other now
      ≡ ite
          (IpAddr-discrete (normalize_ip ip) (normalize_ip other))
          (if ltb (now - at) c.timeout
            then elim (lookup IpAddr-discrete (normalize_ip ip) c.cache) [
              | none ↦ none
              | some e ↦ some (record e { last_authenticated = at })
            ]
            else none)
          (check_auth c other now)
unfolding check_auth refresh_auth
refreshed c ip other at now none h = ground arith
refreshed c ip other at now (some e) h = ground (
  arith,
  lookup-insert IpAddr-discrete (normalize_ip ip) (normalize_ip other)
      (record e { last_authenticated = at }) c.cache,
)

-- After a refresh, an address that the cache knows, even one whose time had passed, is answered with
-- its login for the time-out from the refresh on, and one that it does not know is not answered. Other
-- addresses are answered as before.
pub check_auth-refresh_auth :
    (c : AuthAddressCache) (ip other : IpAddr) (at now : ℕ)
    → let (known, c') = refresh_auth c ip at in
      check_auth c' other now
      ≡ ite
          (IpAddr-discrete (normalize_ip ip) (normalize_ip other))
          (if ltb (now - at) c.timeout
            then elim (lookup IpAddr-discrete (normalize_ip ip) c.cache) [
              | none ↦ none
              | some e ↦ some (record e { last_authenticated = at })
            ]
            else none)
          (check_auth c other now)
check_auth-refresh_auth c ip other at now =
    refreshed c ip other at now (lookup IpAddr-discrete (normalize_ip ip) c.cache) refl

-- A clean-up is never seen: from then on each address is answered as it would have been without it,
-- if the cache has each address once, as a hash map has.
pub check_auth-cleanup_expired :
    (c : AuthAddressCache) (at now : ℕ) (ip : IpAddr)
    → IsUnique IpAddr-discrete c.cache
    → at ≤ now
    → check_auth (cleanup_expired c at) ip now ≡ check_auth c ip now
unfolding check_auth cleanup_expired
check_auth-cleanup_expired c at now ip u h = ground (
  arith,
  lookup-remove_all-keys_where IpAddr-discrete (λ e. not (is_valid c.timeout at e))
      (normalize_ip ip) c.cache u,
)
