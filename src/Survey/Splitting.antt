-- ===== src/Survey/Splitting.antt =====
-- How `split`, `join` and `replace` go together.
use netpoke.Prelude.{ℕ, ◌≢◌, ◌≡◌, refl, List, [], ◌∷◌, ◌++◌, arith, ◌==◌, All, Bool-cases, inl, inr}
use netpoke.Survey.Texts.{Text, split, cons_head, join, replace}

-- A text without a character.
abbrev pub Lacks : ℕ → Text → Type 0
Lacks c text = All (λ x. x ≢ c) text

pub split_whole : (c : ℕ) (text : Text) → Lacks c text → split c text ≡ text ∷ []
unfolding split
split_whole c [] h = refl
split_whole c (x ∷ xs) h = rw (split_whole c xs h.1) (ground (arith, h.0))

pub split_cons :
    (c : ℕ) (text : Text) → (part : Text) × (parts : List Text) × (split c text ≡ part ∷ parts)
unfolding split
split_cons c [] = ([], [], refl)
split_cons c (x ∷ xs) =
    let (part, parts, e) = split_cons c xs in
    elim (Bool-cases (x == c)) [
      | inl t ↦ ([], split c xs, rw t refl)
      | inr t ↦ (x ∷ part, parts, rw t (rw e refl))
    ]

join-cons_head :
    (separator : Text) (x : ℕ) (part : Text) (parts : List Text)
    → join separator (cons_head x (part ∷ parts)) ≡ x ∷ join separator (part ∷ parts)
unfolding join
join-cons_head separator x part [] = refl
join-cons_head separator x part (next ∷ parts) = refl

-- The parts before a separator and the parts behind it.
pub split-append : (c : ℕ) (xs ys : Text) → split c (xs ++ (c ∷ ys)) ≡ split c xs ++ split c ys
unfolding split
split-append c [] ys = ground arith
split-append c (x ∷ xs) ys =
    let (part, parts, e) = split_cons c xs in
    elim (Bool-cases (x == c)) [
      | inl t ↦ rw (split-append c xs ys) (rw t refl)
      | inr t ↦ rw (split-append c xs ys) (rw t (rw e refl))
    ]

pub join-split-replace :
    (old new : ℕ) (text : Text) → join (new ∷ []) (split old text) ≡ replace old new text
unfolding split join replace
join-split-replace old new [] = refl
join-split-replace old new (x ∷ xs) =
    let (part, parts, e) = split_cons old xs in
    elim (Bool-cases (x == old)) [
      | inl t ↦ rw t (rw⁻¹ (join-split-replace old new xs) (rw e refl))
      | inr t ↦
          rw t
            (rw⁻¹ (join-split-replace old new xs) (rw e (join-cons_head (new ∷ []) x part parts)))
    ]

pub replace-replace : (a b : ℕ) (text : Text) → replace b a (replace a b text) ≡ replace b a text
unfolding replace
replace-replace a b [] = refl
replace-replace a b (x ∷ xs) = ground (arith, replace-replace a b xs)

pub replace_lacking : (old new : ℕ) (text : Text) → Lacks old text → replace old new text ≡ text
unfolding replace
replace_lacking old new [] h = refl
replace_lacking old new (x ∷ xs) h = ground (arith, h.0, replace_lacking old new xs h.1)

pub Lacks-replace :
    (old new c : ℕ) (text : Text) → new ≢ c → Lacks c text → Lacks c (replace old new text)
unfolding replace
Lacks-replace old new c [] n h = tt
Lacks-replace old new c (x ∷ xs) n h = (ground (arith, h.0), Lacks-replace old new c xs n h.1)
