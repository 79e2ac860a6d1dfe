-- ===== src/Access/Cache.antt =====
-- server/src/auth_cache.rs: `AuthAddressCache`. A time is a number of milliseconds and an argument; a
-- lock that a panic has poisoned is not modelled.
use netpoke.Prelude.{
  ℕ, ◌-◌, ◌*◌, Bool, true, false, not, Option, none, some, List, [], ◌∷◌, String, ltb,
  if◌then◌else◌, Map, lookup, insert, remove_all, keys_where,
}
use netpoke.Net.{IpAddr, IpAddr-discrete}
use netpoke.Access.Normal.{normalize_ip}

pub record AuthenticatedAddress : Type 0 where
  pub ip : IpAddr
  pub user_id : String
  pub display_name : Option String
  pub last_authenticated : ℕ
  pub auth_source : String

pub record AuthAddressCache : Type 0 where
  pub cache : Map IpAddr AuthenticatedAddress
  pub timeout : ℕ

unfoldable pub new : ℕ → AuthAddressCache
new timeout_secs = record { cache = []; timeout = timeout_secs * 1000 }

-- The arguments of `record_auth` besides the address.
pub record Login : Type 0 where
  pub user_id : String
  pub display_name : Option String
  pub auth_source : String

abbrev pub address_entry : IpAddr → Login → ℕ → AuthenticatedAddress
address_entry ip login now = record {
  ip = normalize_ip ip;
  user_id = login.user_id;
  display_name = login.display_name;
  last_authenticated = now;
  auth_source = login.auth_source;
}

unfoldable pub record_auth : AuthAddressCache → IpAddr → Login → ℕ → AuthAddressCache
record_auth c ip login now = record c {
  cache = insert IpAddr-discrete (normalize_ip ip) (address_entry ip login now) c.cache;
}

unfoldable pub refresh_auth : AuthAddressCache → IpAddr → ℕ → Bool × AuthAddressCache
refresh_auth c ip now = elim (lookup IpAddr-discrete (normalize_ip ip) c.cache) [
  | none ↦ (false, c)
  | some entry ↦ (
    true,
    record c {
      cache =
          insert IpAddr-discrete (normalize_ip ip) (record entry { last_authenticated = now })
            c.cache;
    },
  )
]

-- `entry.last_authenticated.elapsed() < timeout`; `elapsed` stops at 0.
abbrev pub is_valid : ℕ → ℕ → AuthenticatedAddress → Bool
is_valid timeout now entry = ltb (now - entry.last_authenticated) timeout

unfoldable pub check_auth : AuthAddressCache → IpAddr → ℕ → Option AuthenticatedAddress
check_auth c ip now = elim (lookup IpAddr-discrete (normalize_ip ip) c.cache) [
  | none ↦ none
  | some entry ↦ if is_valid c.timeout now entry then some entry else none
]

unfoldable pub is_authenticated : AuthAddressCache → IpAddr → ℕ → Bool
is_authenticated c ip now = elim (check_auth c ip now) [ none ↦ false | some entry ↦ true ]

-- `retain`: what fails the test goes.
unfoldable pub cleanup_expired : AuthAddressCache → ℕ → AuthAddressCache
cleanup_expired c now = record c {
  cache =
      remove_all IpAddr-discrete (keys_where (λ e. not (is_valid c.timeout now e)) c.cache) c.cache;
}

unfoldable pub valid_entries : ℕ → ℕ → Map IpAddr AuthenticatedAddress → List AuthenticatedAddress
valid_entries timeout now [] = []
valid_entries timeout now ((ip, entry) ∷ m) =
    if is_valid timeout now entry
    then entry ∷ valid_entries timeout now m
    else valid_entries timeout now m

unfoldable pub get_all_valid : AuthAddressCache → ℕ → List AuthenticatedAddress
get_all_valid c now = valid_entries c.timeout now c.cache
