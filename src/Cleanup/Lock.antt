-- ===== src/Cleanup/Lock.antt =====
-- The locks of the handler of server/src/cleanup.rs. Its read guard lives to the end of the function, or
-- until the handler's future is dropped, as the HTTP server does when the client disconnects; a
-- binding that is shadowed is not dropped. The other tasks read and write as the lock lets them
-- (`tokio::sync::RwLock`: a guard for writing is given when no guard is held).
use netpoke.Prelude.{
  ◌≢◌, refl, false, true, none, some, inl, inr, ◌⊎◌, ℕ, suc, ◌≡◌, Bool, Option, List, sym, subst,
  lookup, remove_all, String, String-discrete,
}
use netpoke.Cleanup.{Clients, descendants}

-- Where the handler is: it waits for the write lock with the set that it collected.
pub data Phase : Type 0 where
  starts looks not_found dropped : Phase
  waits removed : List String → Phase

-- The guards: of the other readers, of the handler's `read`, and of a writer.
pub record World : Type 0 where
  pub clients : Clients
  pub readers : ℕ
  pub read_guard : Bool
  pub writer : Bool
  pub phase : Phase

-- No guard at all is held.
abbrev pub IsFree : World → Type 0
IsFree w = (w.readers ≡ 0) × (w.read_guard ≡ false) × (w.writer ≡ false)

-- The handler's steps are those of the function, in its order; a return drops the read guard.
pub data Step (client_id : String) : World → World → Type 0 where
  reads :
      (w : World)
      → w.phase ≡ starts
      → w.writer ≡ false
      → Step client_id w (record w { phase = looks; read_guard = true })
  answers :
      (w : World)
      → w.phase ≡ looks
      → lookup String-discrete client_id w.clients ≡ none
      → Step client_id w (record w { phase = not_found; read_guard = false })
  closes :
      (w : World) (session : Option String) (ids : List String)
      → w.phase ≡ looks
      → lookup String-discrete client_id w.clients ≡ some session
      → descendants w.clients client_id ≡ some ids
      → Step client_id w (record w { phase = waits ids })
  removes :
      (w : World) (ids : List String)
      → w.phase ≡ waits ids
      → IsFree w
      → Step client_id w (record w {
        clients = remove_all String-discrete ids w.clients;
        phase = removed ids;
        read_guard = false;
      })
  disconnects : (w : World) → Step client_id w (record w { phase = dropped; read_guard = false })
  other_reads :
      (w : World) → w.writer ≡ false → Step client_id w (record w { readers = suc w.readers })
  other_drops :
      (w : World) (n : ℕ) → w.readers ≡ suc n → Step client_id w (record w { readers = n })
  other_locks : (w : World) → IsFree w → Step client_id w (record w { writer = true })
  other_writes :
      (w : World) (clients : Clients)
      → w.writer ≡ true
      → Step client_id w (record w { clients = clients; writer = false })

pub data Reach (client_id : String) (start : World) : World → Type 0 where
  here : Reach client_id start start
  next : {v w : World} → Reach client_id start v → Step client_id v w → Reach client_id start w

-- What is known in a phase: behind `read` the guard is held and nobody writes, and `removed` is not met.
abbrev Holds : Phase → Bool → Bool → Type 0
Holds starts guard writer = Unit
Holds looks guard writer = (guard ≡ true) × (writer ≡ false)
Holds not_found guard writer = Unit
Holds dropped guard writer = Unit
Holds (waits ids) guard writer = (guard ≡ true) × (writer ≡ false)
Holds (removed ids) guard writer = ⊥

abbrev Inv : World → Type 0
Inv w = Holds w.phase w.read_guard w.writer

-- A step of another writer finds the handler outside these phases.
Holds-lock :
    (p : Phase) (guard writer new : Bool)
    → Holds p guard writer
    → (guard ≡ false) ⊎ (writer ≡ true)
    → Holds p guard new
Holds-lock starts guard writer new h e = tt
Holds-lock looks guard writer new h (inl e) = cc
Holds-lock looks guard writer new h (inr e) = cc
Holds-lock not_found guard writer new h e = tt
Holds-lock dropped guard writer new h e = tt
Holds-lock (waits ids) guard writer new h (inl e) = cc
Holds-lock (waits ids) guard writer new h (inr e) = cc
Holds-lock (removed ids) guard writer new h e = absurd h

Step-Inv : {client_id : String} {v w : World} → Step client_id v w → Inv v → Inv w
Step-Inv (reads v p f) s = (refl, f)
Step-Inv (answers v p f) s = tt
Step-Inv (closes v session others p f d) s = subst (λ p. Holds p v.read_guard v.writer) p s
Step-Inv (removes v ids p f) s =
    let held = subst (λ p. Holds p v.read_guard v.writer) p s in absurd (cc (held.0, f.1))
Step-Inv (disconnects v) s = tt
Step-Inv (other_reads v f) s = s
Step-Inv (other_drops v n f) s = s
Step-Inv (other_locks v f) s = Holds-lock v.phase v.read_guard v.writer true s (inl f.1)
Step-Inv (other_writes v new f) s = Holds-lock v.phase v.read_guard v.writer false s (inr f)

Reach-Inv : {client_id : String} {v w : World} → Reach client_id v w → Inv v → Inv w
Reach-Inv here s = s
Reach-Inv (next r t) s = Step-Inv t (Reach-Inv r s)

not_removed : (ids : List String) (w : World) → Inv w → w.phase ≢ removed ids
not_removed ids w s e = absurd (subst (λ p. Holds p w.read_guard w.writer) e s)

-- A cleanup that has begun never removes a client, whatever the other tasks do and whether its client
-- disconnects or not: in no state that can be reached has the handler come behind the write lock.
pub cleanup_never_removes :
    (client_id : String) (start w : World) (ids : List String)
    → start.phase ≡ starts
    → Reach client_id start w
    → w.phase ≢ removed ids
cleanup_never_removes client_id start w ids p r =
    not_removed ids w (Reach-Inv r (subst (λ q. Holds q start.read_guard start.writer) (sym p) tt))
