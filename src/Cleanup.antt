-- ===== src/Cleanup.antt =====
-- server/src/cleanup.rs: `cleanup_client_handler`, which removes a client and its descendants. A
-- client is its id with the id of its parent. `state.clients` is behind a `tokio::sync::RwLock`
-- (server/src/state.rs); the set `to_remove` is a list; the loop runs on fuel, its passes.
pub mod Descendants
pub mod Lock
mod Tests
use netpoke.Prelude.{
  ℕ, zero, suc, ◌+◌, ◌≡◌, Bool, true, false, not, ◌&&◌, Option, none, some, List, [], ◌∷◌,
  if◌then◌else◌, length, Map, lookup, remove_all, ite, String, String-discrete,
}

-- The field `parent_id` of a session, by the id of the client.
abbrev pub Clients : Type 0
Clients = Map String (Option String)

-- `to_remove.contains(id)`
abbrev pub member : String → List String → Bool
member id [] = false
member id (other ∷ ids) = ite (String-discrete id other) true (member id ids)

abbrev pub has_parent_in : Option String → List String → Bool
has_parent_in none to_remove = false
has_parent_in (some parent_id) to_remove = member parent_id to_remove

-- One pass of the `while`: the set and the flag `changed` after it.
unfoldable pub pass : Clients → List String → Bool → List String × Bool
pass [] to_remove changed = (to_remove, changed)
pass ((id, parent_id) ∷ clients) to_remove changed =
    let found = pass clients (id ∷ to_remove) true in
    let other = pass clients to_remove changed in
    if has_parent_in parent_id to_remove && not (member id to_remove) then found else other

-- `while changed`; `none` is out of fuel.
unfoldable pub close : ℕ → Clients → List String → Option (List String)
close zero clients to_remove = none
close (suc fuel) clients to_remove =
    let (grown, changed) = pass clients to_remove false in
    let rest = close fuel clients grown in if changed then rest else some grown

unfoldable pub descendants : Clients → String → Option (List String)
descendants clients client_id = close (suc (length clients)) clients (client_id ∷ [])
