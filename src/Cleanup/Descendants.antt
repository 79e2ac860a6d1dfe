-- ===== src/Cleanup/Descendants.antt =====
-- The set that the handler of server/src/cleanup.rs collects.
use netpoke.Prelude.{
  ℕ, zero, suc, ◌+◌, ◌≤◌, ◌<◌, ◌≡◌, ◌↔◌, ◌⊎◌, refl, sym, ◌∙◌, Bool, true, false, not, ◌&&◌,
  Bool-cases, inl, inr, Option, none, some, List, [], ◌∷◌, arith, if◌then◌else◌, length, if_neg,
  String, String-discrete, Any, subst,
}
use netpoke.Cleanup.{Clients, member, has_parent_in, pass, close, descendants}

-- The client is in the table, with that parent.
abbrev pub Child : Clients → String → String → Type 0
Child clients parent id = Any (λ c. c ≡ (id, some parent)) clients

pub data Descends (clients : Clients) (root : String) : String → Type 0 where
  here : Descends clients root root
  below :
      {parent id : String}
      → Descends clients root parent
      → Child clients parent id
      → Descends clients root id

abbrev Sound : Clients → String → List String → Type 0
Sound clients root ids = (x : String) → member x ids ≡ true → Descends clients root x

abbrev Within : Clients → Clients → Type 0
Within part clients =
    (c : String × Option String) → Any (λ d. d ≡ c) part → Any (λ d. d ≡ c) clients

cons-Sound :
    (clients : Clients) (root id : String) (ids : List String)
    → Descends clients root id
    → Sound clients root ids
    → Sound clients root (id ∷ ids)
cons-Sound clients root id ids d s x h = elim (String-discrete x id) [
  | yes e ↦ subst (Descends clients root) (sym e) d
  | no n ↦ s x (sym (if_neg (String-discrete x id) n true (member x ids)) ∙ h)
]

-- A pass adds descendants only.
pass-Sound :
    (clients part : Clients) (root : String) (ids : List String) (changed : Bool)
    → Within part clients
    → Sound clients root ids
    → Sound clients root (pass part ids changed).0
unfolding pass
pass-Sound clients [] root ids changed w s = s
pass-Sound clients ((id, none) ∷ part) root ids changed w s =
    pass-Sound clients part root ids changed (λ c h. w c (inr h)) s
pass-Sound clients ((id, some parent) ∷ part) root ids changed w s =
    elim (Bool-cases (member parent ids)) [
      | inr e ↦ rw e (pass-Sound clients part root ids changed (λ c h. w c (inr h)) s)
      | inl e ↦ elim (Bool-cases (member id ids)) [
        | inl f ↦ rw e (rw f (pass-Sound clients part root ids changed (λ c h. w c (inr h)) s))
        | inr f ↦ rw e (
            rw f (
              pass-Sound clients part root (id ∷ ids) true (λ c h. w c (inr h))
                (cons-Sound clients root id ids
                  (below (s parent e) (w (id, some parent) (inl refl))) s)))
      ]
    ]

-- The clients that are not in a set.
abbrev missing : Clients → List String → ℕ
missing [] ids = 0
missing ((id, parent) ∷ clients) ids = (if member id ids then 0 else 1) + missing clients ids

missing_le : (clients : Clients) (ids : List String) → missing clients ids ≤ length clients
missing_le [] ids = omega arith
missing_le ((id, parent) ∷ clients) ids = ground (arith, missing_le clients ids)

member-cons : (x id : String) (ids : List String) → member x ids ≡ true → member x (id ∷ ids) ≡ true
member-cons x id ids h = ground (arith, h)

missing-cons_le :
    (clients : Clients) (id : String) (ids : List String)
    → missing clients (id ∷ ids) ≤ missing clients ids
missing-cons_le [] id ids = omega arith
missing-cons_le ((x, parent) ∷ clients) id ids = ground (arith, missing-cons_le clients id ids)

-- A set with another client of the table misses fewer of them.
missing-cons_lt :
    (clients : Clients) (c : String × Option String) (ids : List String)
    → Any (λ d. d ≡ c) clients
    → member c.0 ids ≡ false
    → missing clients (c.0 ∷ ids) < missing clients ids
missing-cons_lt [] c ids h n = absurd h
missing-cons_lt ((x, parent) ∷ clients) c ids (inl h) n =
    subst
      (λ d.
        member d.0 ids ≡ false
        → missing ((x, parent) ∷ clients) (d.0 ∷ ids) < missing ((x, parent) ∷ clients) ids)
      h (λ m. ground (arith, m, missing-cons_le clients x ids)) n
missing-cons_lt ((x, parent) ∷ clients) c ids (inr h) n =
    ground (arith, missing-cons_lt clients c ids h n)

pass_le :
    (clients part : Clients) (ids : List String) (changed : Bool)
    → missing clients (pass part ids changed).0 ≤ missing clients ids
unfolding pass
pass_le clients [] ids changed = omega arith
pass_le clients ((id, parent) ∷ part) ids changed =
    elim (Bool-cases (has_parent_in parent ids && not (member id ids))) [
      | inl e ↦
          rw e (omega (arith, pass_le clients part (id ∷ ids) true, missing-cons_le clients id ids))
      | inr e ↦ rw e (pass_le clients part ids changed)
    ]

pass_changed : (part : Clients) (ids : List String) → (pass part ids true).1 ≡ true
unfolding pass
pass_changed [] ids = refl
pass_changed ((id, parent) ∷ part) ids =
    ground (arith, pass_changed part (id ∷ ids), pass_changed part ids)

pass-member :
    (x : String) (part : Clients) (ids : List String) (changed : Bool)
    → member x ids ≡ true
    → member x (pass part ids changed).0 ≡ true
unfolding pass
pass-member x [] ids changed h = h
pass-member x ((id, parent) ∷ part) ids changed h =
    elim (Bool-cases (has_parent_in parent ids && not (member id ids))) [
      | inl e ↦ rw e (pass-member x part (id ∷ ids) true (member-cons x id ids h))
      | inr e ↦ rw e (pass-member x part ids changed h)
    ]

-- The children of the set's members are in the set.
abbrev Closed : Clients → List String → Type 0
Closed part ids =
    (parent id : String) → Child part parent id → member parent ids ≡ true → member id ids ≡ true

cons-Closed :
    (id : String) (parent : Option String) (part : Clients) (ids : List String)
    → (has_parent_in parent ids && not (member id ids)) ≡ false
    → Closed part ids
    → Closed ((id, parent) ∷ part) ids
cons-Closed id parent part ids e c p x (inr h) m = c p x h m
cons-Closed id parent part ids e c p x (inl h) m =
    let tested : (member p ids && not (member x ids)) ≡ false =
      subst (λ d. (has_parent_in d.1 ids && not (member d.0 ids)) ≡ false) h e in
    ground (arith, tested, m)

and_not : (a b : Bool) → (a && not b) ≡ true → b ≡ false
and_not a b h = ground arith

-- A pass that changes nothing leaves a closed set, and another misses fewer clients.
pass-cases :
    (clients part : Clients) (ids : List String)
    → Within part clients
    → ((pass part ids false ≡ (ids, false)) × Closed part ids)
      ⊎ ((missing clients (pass part ids false).0 < missing clients ids)
          × ((pass part ids false).1 ≡ true))
unfolding pass
pass-cases clients [] ids w = inl (refl, λ p x h m. absurd h)
pass-cases clients ((id, parent) ∷ part) ids w =
    elim (Bool-cases (has_parent_in parent ids && not (member id ids))) [
      | inl e ↦ rw e (
          inr (
            omega (
              arith,
              pass_le clients part (id ∷ ids) true,
              missing-cons_lt clients (id, parent) ids (w (id, parent) (inl refl))
                  (and_not (has_parent_in parent ids) (member id ids) e),
            ),
            pass_changed part (id ∷ ids),
          ))
      | inr e ↦ rw e (elim (pass-cases clients part ids (λ c h. w c (inr h))) [
        | inl (same, closed) ↦ inl (same, cons-Closed id parent part ids e closed)
        | inr fewer ↦ inr fewer
      ])
    ]

-- The loop, with as much fuel as clients are missing.
close_lem :
    (fuel : ℕ) (clients : Clients) (root : String) (ids : List String)
    → missing clients ids < fuel
    → Sound clients root ids
    → member root ids ≡ true
    → (result : List String) × (close fuel clients ids ≡ some result)
      × Sound clients root result
      × Closed clients result
      × (member root result ≡ true)
unfolding close
close_lem zero clients root ids f s m = absurd (omega arith)
close_lem (suc fuel) clients root ids f s m = elim (pass-cases clients clients ids (λ c h. h)) [
  | inl (same, closed) ↦ (ids, rw same refl, s, closed, m)
  | inr (fewer, changed) ↦
      let (result, e, sound, closed, held) =
        close_lem fuel clients root (pass clients ids false).0 (omega arith)
          (pass-Sound clients clients root ids false (λ c h. h) s)
          (pass-member root clients ids false m) in
      (result, rw changed e, sound, closed, held)
]

Descends-member :
    {clients : Clients} {root : String} (ids : List String) {x : String}
    → Closed clients ids
    → member root ids ≡ true
    → Descends clients root x
    → member x ids ≡ true
Descends-member ids c m here = m
Descends-member ids c m (below d h) = c _ _ h (Descends-member ids c m d)

root-Sound : (clients : Clients) (root : String) → Sound clients root (root ∷ [])
root-Sound clients root = cons-Sound clients root root [] here (λ x h. cc)

-- The handler's loop ends, on any table of clients, cycles of parents included, after at most one pass more than there
-- are clients, and what it collects is exactly the client and its descendants in the table.
pub descendants_lem :
    (clients : Clients) (root : String)
    → (ids : List String) × (descendants clients root ≡ some ids)
      × ((x : String) → (member x ids ≡ true) ↔ Descends clients root x)
unfolding descendants
descendants_lem clients root =
    let (ids, e, sound, closed, m) =
      close_lem (suc (length clients)) clients root (root ∷ [])
        (omega (arith, missing_le clients (root ∷ []))) (root-Sound clients root) (ground arith) in
    (ids, e, λ x. (sound x, Descends-member ids closed m))
