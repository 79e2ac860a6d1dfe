-- ===== src/Access/Iperf.antt =====
-- iperf3-server/src/server.rs: the part of `Iperf3Server` that decides who is let in, and
-- iperf3-server/src/config.rs, its configuration. The callback is a parameter of the server.
use netpoke.Prelude.{
  ℕ, Bool, true, false, not, Option, none, some, [], String, ◌==◌, length, if◌then◌else◌, Map,
  lookup, insert, remove,
}
use netpoke.Net.{IpAddr, IpAddr-discrete}
use netpoke.Access.Normal.{normalize_ip}

pub record Iperf3Config : Type 0 where
  pub enabled : Bool
  pub host : String
  pub port : ℕ
  pub max_sessions : ℕ
  pub max_duration_secs : ℕ
  pub require_auth : Bool
  pub auth_timeout_secs : ℕ
  pub max_bandwidth : ℕ

-- The callback takes the time too, since the one that is set reads the clock.
abbrev pub AuthCallback : Type 0
AuthCallback = IpAddr → ℕ → Bool

-- The sessions and the shutdown channel take no part in the decision.
pub record Iperf3Server : Type 0 where
  pub config : Iperf3Config
  pub allowed_ips : Map IpAddr (Unit {0})
  pub auth_callback : Option AuthCallback

unfoldable pub new : Iperf3Config → Iperf3Server
new config = record { config = config; allowed_ips = []; auth_callback = none }

unfoldable pub set_auth_callback : Iperf3Server → AuthCallback → Iperf3Server
set_auth_callback s callback = record s { auth_callback = some callback }

unfoldable pub add_allowed_ip : Iperf3Server → IpAddr → Iperf3Server
add_allowed_ip s ip = record s { allowed_ips = insert IpAddr-discrete ip tt s.allowed_ips }

unfoldable pub remove_allowed_ip : Iperf3Server → IpAddr → Iperf3Server
remove_allowed_ip s ip = record s { allowed_ips = remove IpAddr-discrete ip s.allowed_ips }

-- `allowed.contains_key(&ip)`
abbrev pub is_listed : Iperf3Server → IpAddr → Bool
is_listed s ip = elim (lookup IpAddr-discrete ip s.allowed_ips) [ none ↦ false | some u ↦ true ]

unfoldable pub is_ip_allowed : Iperf3Server → IpAddr → ℕ → Bool
is_ip_allowed s ip now = if not s.config.require_auth then true else elim s.auth_callback [
  | some callback ↦ callback (normalize_ip ip) now
  | none ↦ if length s.allowed_ips == 0 then false else is_listed s (normalize_ip ip)
]
