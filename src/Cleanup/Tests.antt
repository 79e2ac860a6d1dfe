-- ===== src/Cleanup/Tests.antt =====
-- Examples of the Cleanup modules: a client with a child and a grandchild, which stands first.
use netpoke.Prelude.{
  ◌≢◌, false, lookup, ◌≡◌, ◌↔◌, refl, true, false, none, some, List, [], ◌∷◌, String,
  String-discrete,
}
use netpoke.Cleanup.{Clients, member, pass, close, descendants}
use netpoke.Cleanup.Descendants.{Descends, descendants_lem}
use netpoke.Cleanup.Lock.{
  World, starts, looks, waits, removed, Reach, here, next, reads, closes, cleanup_never_removes,
}

abbrev clients : Clients
clients =
    ("grandchild", some "child") ∷ ("child", some "root") ∷ ("root", none) ∷ ("other", none) ∷ []

descendants_lem_example :
    (ids : List String) × (descendants clients "root" ≡ some ids)
    × ((x : String) → (member x ids ≡ true) ↔ Descends clients "root" x)
descendants_lem_example = descendants_lem clients "root"

abbrev family : List String
family = "grandchild" ∷ "child" ∷ "root" ∷ []

collected : descendants clients "root" ≡ some family
unfolding descendants close pass String-discrete
collected = refl

present : lookup String-discrete "root" clients ≡ some none
unfolding lookup String-discrete
present = refl

abbrev begun : World
begun = record {
  clients = clients;
  readers = 0;
  read_guard = false;
  writer = false;
  phase = starts;
}

abbrev looking : World
looking = record begun { phase = looks; read_guard = true }

abbrev later : World
later = record looking { phase = waits family }

waits_later : Reach "root" begun later
waits_later =
    next (next here (reads begun refl refl)) (closes looking none family refl present collected)

cleanup_never_removes_example : later.phase ≢ removed family
cleanup_never_removes_example = cleanup_never_removes "root" begun later family refl waits_later
