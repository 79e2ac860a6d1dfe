-- ===== src/Keylog/Eviction.antt =====
-- What `add_entry` of server/src/dtls_keylog.rs keeps and what it evicts.
use netpoke.Prelude.{
  ◌≡◌, refl, sym, subst, Bool, true, false, not, ◌&&◌, none, some, List, [], ◌∷◌, ◌++◌, String,
  String-discrete, arith, inl, inr, length, length-drop, drop, leb, if◌then◌else◌, ite, lookup,
  IsUnique, insert-IsUnique, lookup-insert, Bool-cases,
}
use netpoke.Keylog.{
  DtlsKeylogEntry, KeylogStorage, add_entry, get_entries, push, contains_key, is_empty, or_new,
}
use netpoke.Keylog.Storage.{Sessions, keys, IsValid, keys-insert, length-insert, evict_lem}

-- The map that the eviction loop leaves.
abbrev evicted : KeylogStorage → Sessions
evicted s = if leb s.config.max_sessions (length s.sessions) then drop 1 s.sessions else s.sessions

drop-IsUnique : (m : Sessions) → IsUnique String-discrete m → IsUnique String-discrete (drop 1 m)
drop-IsUnique [] u = u
drop-IsUnique (p ∷ m) u = u.1

lookup-drop :
    (id : String) (m : Sessions)
    → lookup String-discrete id m ≡ none
    → lookup String-discrete id (drop 1 m) ≡ none
unfolding lookup
lookup-drop id [] h = h
lookup-drop id ((j, w) ∷ m) h = ground arith

-- A new session, on a valid storage.
abbrev with_new : KeylogStorage → String → DtlsKeylogEntry → KeylogStorage
with_new s id e = record s {
  sessions = push id e (evicted s);
  session_order = keys (evicted s) ++ (id ∷ []);
}

add_entry-new :
    (s : KeylogStorage) (id : String) (e : DtlsKeylogEntry)
    → IsValid s
    → is_empty id ≡ false
    → contains_key id s.sessions ≡ false
    → add_entry s id e ≡ with_new s id e
unfolding add_entry
add_entry-new s id e v h k =
    subst (λ o. add_entry (record s { session_order = o }) id e ≡ with_new s id e) v.ordered
      (ground (arith, evict_lem s.config.max_sessions s.sessions v.unique v.bounded))

add_entry-known :
    (s : KeylogStorage) (id : String) (e : DtlsKeylogEntry)
    → is_empty id ≡ false
    → contains_key id s.sessions ≡ true
    → add_entry s id e ≡ record s { sessions = push id e s.sessions }
unfolding add_entry
add_entry-known s id e h k = ground arith

evicted-new :
    (s : KeylogStorage) (id : String)
    → contains_key id s.sessions ≡ false
    → contains_key id (evicted s) ≡ false
evicted-new s id k = ground (arith, lookup-drop id s.sessions)

evicted-IsUnique : (s : KeylogStorage) → IsValid s → IsUnique String-discrete (evicted s)
evicted-IsUnique s v = ground (arith, drop-IsUnique s.sessions v.unique, v.unique)

with_new-IsValid :
    (s : KeylogStorage) (id : String) (e : DtlsKeylogEntry)
    → IsValid s
    → contains_key id s.sessions ≡ false
    → IsValid (with_new s id e)
with_new-IsValid s id e v k = record {
  ordered = ground (
    arith,
    keys-insert id (or_new (lookup String-discrete id (evicted s)) ++ (e ∷ [])) (evicted s),
    evicted-new s id k,
  );
  unique = insert-IsUnique String-discrete id _ (evicted s) (evicted-IsUnique s v);
  bounded = ground (
    arith,
    length-insert id (or_new (lookup String-discrete id (evicted s)) ++ (e ∷ [])) (evicted s),
    evicted-new s id k,
    length-drop 1 s.sessions,
    v.bounded,
  );
}

known-IsValid :
    (s : KeylogStorage) (id : String) (e : DtlsKeylogEntry)
    → IsValid s
    → contains_key id s.sessions ≡ true
    → IsValid (record s { sessions = push id e s.sessions })
known-IsValid s id e v k = record {
  ordered = ground (
    arith,
    keys-insert id (or_new (lookup String-discrete id s.sessions) ++ (e ∷ [])) s.sessions,
    v.ordered,
  );
  unique = insert-IsUnique String-discrete id _ s.sessions v.unique;
  bounded = ground (
    arith,
    length-insert id (or_new (lookup String-discrete id s.sessions) ++ (e ∷ [])) s.sessions,
    v.bounded,
  );
}

add_entry-empty :
    (s : KeylogStorage) (id : String) (e : DtlsKeylogEntry)
    → is_empty id ≡ true
    → add_entry s id e ≡ s
unfolding add_entry
add_entry-empty s id e h = ground arith

-- A key added to a valid storage leaves it valid: the order lists the stored sessions, each once, and
-- there are at most `max_sessions` of them, or one if that is 0.
pub add_entry-IsValid :
    (s : KeylogStorage) (id : String) (e : DtlsKeylogEntry) → IsValid s → IsValid (add_entry s id e)
add_entry-IsValid s id e v = elim (Bool-cases (is_empty id)) [
  | inl h ↦ subst IsValid (sym (add_entry-empty s id e h)) v
  | inr h ↦ elim (Bool-cases (contains_key id s.sessions)) [
    | inl k ↦ subst IsValid (sym (add_entry-known s id e h k)) (known-IsValid s id e v k)
    | inr k ↦ subst IsValid (sym (add_entry-new s id e v h k)) (with_new-IsValid s id e v k)
  ]
]

abbrev is_first : String → List String → Bool
is_first j [] = false
is_first j (k ∷ ks) = ite (String-discrete k j) true false

lookup-drop_first :
    (j : String) (m : Sessions)
    → IsUnique String-discrete m
    → lookup String-discrete j (drop 1 m)
      ≡ (if is_first j (keys m) then none else lookup String-discrete j m)
unfolding lookup
lookup-drop_first j [] u = refl
lookup-drop_first j ((k, w) ∷ m) u = ground (arith, u.0)

-- Is `j` the session that a key of `id` pushes out: the oldest one, if `id` is new and the storage full?
abbrev pub is_pushed_out : KeylogStorage → String → String → Bool
is_pushed_out s id j =
    not (contains_key id s.sessions)
    && leb s.config.max_sessions (length s.sessions)
    && is_first j s.session_order

-- What each session has after a key is added for the session `id` to a valid storage: `id` has its
-- keys and the new one last; the oldest session has none if `id` is new and the storage full; every
-- other has what it had. A session without a name is not stored.
pub get_entries-add_entry :
    (s : KeylogStorage) (id : String) (e : DtlsKeylogEntry) (j : String)
    → IsValid s
    → get_entries (add_entry s id e) j ≡ (
        if is_empty id
        then get_entries s j
        else ite
            (String-discrete id j)
            (some (or_new (get_entries s id) ++ (e ∷ [])))
            (if is_pushed_out s id j then none else get_entries s j))
unfolding get_entries
get_entries-add_entry s id e j v = elim (Bool-cases (is_empty id)) [
  | inl h ↦ rw (add_entry-empty s id e h, h) refl
  | inr h ↦ elim (Bool-cases (contains_key id s.sessions)) [
    | inl k ↦ ground (
      arith,
      add_entry-known s id e h k,
      lookup-insert String-discrete id j (or_new (lookup String-discrete id s.sessions) ++ (e ∷ []))
          s.sessions,
    )
    | inr k ↦ ground (
      arith,
      add_entry-new s id e v h k,
      lookup-insert String-discrete id j
          (or_new (lookup String-discrete id (evicted s)) ++ (e ∷ [])) (evicted s),
      evicted-new s id k,
      lookup-drop_first j s.sessions v.unique,
      v.ordered,
    )
  ]
]
