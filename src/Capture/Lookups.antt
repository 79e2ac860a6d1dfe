-- ===== src/Capture/Lookups.antt =====
-- What registering and unregistering a client does to the lookups of `SessionRegistry`
-- (server/src/packet_capture.rs).
use netpoke.Prelude.{
  ℕ, ◌<◌, ◌≡◌, refl, true, Option, none, some, List, [], ◌∷◌, ◌++◌, String, String-discrete,
  ℕ_discrete, ite, arith, lookup-insert, lookup-insert_self, lookup-remove, lookup-remove_self,
  lookup as get,
}
use netpoke.Net.{SocketAddr, SocketAddr-discrete}
use netpoke.Capture.Registry.{
  SessionRegistry, register, unregister, lookup, lookup_by_server_port, has_session, or_new,
  or_else, first, new,
}

pub lookup-new : (addr : SocketAddr) → lookup new addr ≡ none
unfolding lookup new get
lookup-new addr = refl

-- Registering maps the client's address to the session, and no other address elsewhere.
pub lookup-register :
    (r : SessionRegistry) (client addr : SocketAddr) (port : ℕ) (id : String)
    → lookup (register r client port id) addr
      ≡ ite (SocketAddr-discrete client addr) (some id) (lookup r addr)
unfolding lookup register
lookup-register r client addr port id =
    lookup-insert SocketAddr-discrete client addr id r.address_to_session

pub lookup-unregister :
    (r : SessionRegistry) (client addr : SocketAddr)
    → lookup (unregister r client) addr ≡ ite (SocketAddr-discrete client addr) none (lookup r addr)
unfolding lookup unregister
lookup-unregister r client addr = lookup-remove SocketAddr-discrete client addr r.address_to_session

first-append :
    (xs : Option (List String)) (id : String)
    → first (some (or_new xs ++ (id ∷ []))) ≡ or_else (first xs) (some id)
first-append none id = refl
first-append (some []) id = refl
first-append (some (x ∷ xs)) id = refl

-- The first session at a port other than 0 keeps it: a later one is found there only if there was none.
pub lookup_by_server_port-register :
    (r : SessionRegistry) (client : SocketAddr) (port : ℕ) (id : String)
    → 0 < port
    → lookup_by_server_port (register r client port id) port
      ≡ or_else (lookup_by_server_port r port) (some id)
unfolding lookup_by_server_port register
lookup_by_server_port-register r client port id h =
    let ids = get ℕ_discrete port r.server_port_to_session in
    ground (
      arith,
      lookup-insert_self ℕ_discrete port (or_new ids ++ (id ∷ [])) r.server_port_to_session,
      first-append ids id,
    )

-- To unregister the address of a session forgets the address only: the session is still known, and
-- every port has the session that it had.
pub unregister-keeps :
    (r : SessionRegistry) (client : SocketAddr) (port : ℕ) (id : String)
    → (lookup (unregister (register r client port id) client) client ≡ none)
      × (has_session (unregister (register r client port id) client) id ≡ true)
      × ((p : ℕ)
          → lookup_by_server_port (unregister (register r client port id) client) p
            ≡ lookup_by_server_port (register r client port id) p)
unfolding lookup unregister register has_session lookup_by_server_port
unregister-keeps r client port id = (
  lookup-remove_self SocketAddr-discrete client _,
  ground (arith, lookup-insert_self String-discrete id tt r.registered_session_ids),
  λ p. refl,
)
