-- ===== src/Capture/Registry.antt =====
-- server/src/packet_capture.rs: `SessionRegistry`, which names the survey session of an address.
use netpoke.Prelude.{
  ℕ, Bool, true, false, Option, none, some, List, [], ◌∷◌, ◌++◌, String, String-discrete,
  ℕ_discrete, ltb, if◌then◌else◌, Map, lookup as get, insert, remove,
}
use netpoke.Net.{SocketAddr, SocketAddr-discrete}

-- A `HashSet` is a map to the unit type.
pub record SessionRegistry : Type 0 where
  pub address_to_session : Map SocketAddr String
  pub server_port_to_session : Map ℕ (List String)
  pub registered_session_ids : Map String (Unit {0})

unfoldable pub new : SessionRegistry
new = record { address_to_session = []; server_port_to_session = []; registered_session_ids = [] }

-- `entry(port).or_insert_with(Vec::new)`
abbrev pub or_new {ℓ} : {A : Type ℓ} → Option (List A) → List A
or_new none = []
or_new (some xs) = xs

unfoldable pub register : SessionRegistry → SocketAddr → ℕ → String → SessionRegistry
register r client_addr server_port id = record {
  address_to_session = insert SocketAddr-discrete client_addr id r.address_to_session;
  server_port_to_session =
      if ltb 0 server_port
      then insert ℕ_discrete server_port
          (or_new (get ℕ_discrete server_port r.server_port_to_session) ++ (id ∷ []))
          r.server_port_to_session
      else r.server_port_to_session;
  registered_session_ids = insert String-discrete id tt r.registered_session_ids;
}

unfoldable pub unregister : SessionRegistry → SocketAddr → SessionRegistry
unregister r client_addr = record r {
  address_to_session = remove SocketAddr-discrete client_addr r.address_to_session;
}

unfoldable pub lookup : SessionRegistry → SocketAddr → Option String
lookup r addr = get SocketAddr-discrete addr r.address_to_session

abbrev pub or_else {ℓ} : {A : Type ℓ} → Option A → Option A → Option A
or_else none b = b
or_else (some a) b = some a

unfoldable pub lookup_by_either : SessionRegistry → SocketAddr → SocketAddr → Option String
lookup_by_either r src dst = or_else (lookup r src) (lookup r dst)

abbrev pub first {ℓ} : {A : Type ℓ} → Option (List A) → Option A
first none = none
first (some []) = none
first (some (x ∷ xs)) = some x

unfoldable pub lookup_by_server_port : SessionRegistry → ℕ → Option String
lookup_by_server_port r port = first (get ℕ_discrete port r.server_port_to_session)

abbrev pub is_some {ℓ} : {A : Type ℓ} → Option A → Bool
is_some none = false
is_some (some a) = true

unfoldable pub has_session : SessionRegistry → String → Bool
has_session r id = is_some (get String-discrete id r.registered_session_ids)
