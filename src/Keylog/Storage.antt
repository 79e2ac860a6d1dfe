-- ===== src/Keylog/Storage.antt =====
-- The invariant of `KeylogStorage` (server/src/dtls_keylog.rs): the map and the order of the sessions
-- tell the same sessions, and there are at most as many as configured.
use netpoke.Prelude.{
  ℕ, suc, ◌≤◌, ◌<◌, ◌≡◌, refl, none, List, [], ◌∷◌, ◌++◌, String, String-discrete, arith, max,
  length, drop, leb, if◌then◌else◌, Map, lookup, insert, remove, IsUnique,
}
use netpoke.Keylog
use netpoke.Keylog.{
  DtlsKeylogConfig, DtlsKeylogEntry, KeylogStorage, add_entry, evict, push, contains_key, is_empty,
}

abbrev pub Sessions : Type 0
Sessions = Map String (List DtlsKeylogEntry)

-- The sessions of the map, oldest first.
abbrev pub keys : Sessions → List String
keys [] = []
keys ((id, es) ∷ m) = id ∷ keys m

pub record IsValid (s : KeylogStorage) : Type 0 where
  pub ordered : keys s.sessions ≡ s.session_order
  pub unique : IsUnique String-discrete s.sessions
  pub bounded : length s.sessions ≤ max s.config.max_sessions 1

-- A new key comes last; a known one stays where it is.
pub keys-insert :
    (id : String) (es : List DtlsKeylogEntry) (m : Sessions)
    → keys (insert String-discrete id es m)
      ≡ (if contains_key id m then keys m else keys m ++ (id ∷ []))
unfolding lookup insert
keys-insert id es [] = refl
keys-insert id es ((j, w) ∷ m) = ground (arith, keys-insert id es m)

pub length-insert :
    (id : String) (es : List DtlsKeylogEntry) (m : Sessions)
    → length (insert String-discrete id es m)
      ≡ (if contains_key id m then length m else suc (length m))
unfolding lookup insert
length-insert id es [] = refl
length-insert id es ((j, w) ∷ m) = ground (arith, length-insert id es m)

remove-none :
    (id : String) (m : Sessions)
    → lookup String-discrete id m ≡ none
    → remove String-discrete id m ≡ m
unfolding lookup remove
remove-none id [] h = refl
remove-none id ((j, w) ∷ m) h = ground (arith, remove-none id m)

-- To remove the oldest session is to drop the front of the map.
pub remove_oldest :
    (id : String) (es : List DtlsKeylogEntry) (m : Sessions)
    → IsUnique String-discrete ((id, es) ∷ m)
    → remove String-discrete id ((id, es) ∷ m) ≡ m
unfolding remove
remove_oldest id es m u = ground (arith, remove-none id m u.0)

-- While fewer sessions than the limit are stored, none is evicted.
pub evict_room :
    (n : ℕ) (m : Sessions) (order : List String) → length m < n → evict n m order ≡ (m, order)
unfolding evict
evict_room n m [] h = refl
evict_room n m (id ∷ order) h = ground arith

-- At the limit just the oldest goes; with a limit of 0 that is the only one.
pub evict_lem :
    (n : ℕ) (m : Sessions)
    → IsUnique String-discrete m
    → length m ≤ max n 1
    → evict n m (keys m) ≡ (if leb n (length m) then (drop 1 m, drop 1 (keys m)) else (m, keys m))
unfolding evict
evict_lem n [] u h = ground arith
evict_lem n ((id, es) ∷ []) u h = ground (arith, remove_oldest id es [] u)
evict_lem n ((id, es) ∷ p ∷ m) u h =
    ground (arith, remove_oldest id es (p ∷ m) u, evict_room n (p ∷ m) (keys (p ∷ m)))

pub new-IsValid : (c : DtlsKeylogConfig) → IsValid (Keylog.new c)
unfolding Keylog.new
new-IsValid c = record { ordered = refl; unique = tt; bounded = omega arith }
