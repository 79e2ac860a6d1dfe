-- ===== src/Net.antt =====
-- The addresses of `std::net` that the server keeps (`IpAddr`, `SocketAddr`), and the fixed-width
-- integers that it reads from and writes to packets.
mod Words
pub use Words.*
use netpoke.Prelude.{ℕ, List, ℕ_discrete, String, String-discrete}

-- `Ipv4Addr` is four octets; `Ipv6Addr` its sixteen octets.
pub data IpAddr : Type 0 where
  v4 : ℕ → ℕ → ℕ → ℕ → IpAddr
  v6 : List ℕ → IpAddr

pub record SocketAddr : Type 0 where
  pub ip : IpAddr
  pub port : ℕ

pub IpAddr-discrete : Discrete IpAddr
IpAddr-discrete = hlevel ℕ_discrete

pub SocketAddr-discrete : Discrete SocketAddr
SocketAddr-discrete = hlevel (ℕ_discrete, IpAddr-discrete)
