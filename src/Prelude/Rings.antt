-- ===== src/Prelude/Rings.antt =====
-- A vector used as a ring of `cap` slots: the last `cap` items of everything written to it. The
-- program has the ring twice, in its packet buffer and in its log buffer.
use Prim.Native.Nat.{ℕ, zero, suc, ◌+◌, ◌-◌, ◌%◌, ◌≤◌, ◌<◌, min}
use mathlib.Core.Path.{◌≡◌, refl, sym, ap, subst, ◌∙◌}
use mathlib.Core.Logic.{◌⊎◌, inl, inr}
use mathlib.Core.List.{List, [], ◌∷◌, ◌++◌, append-nil, append_assoc}
use native.Mathlib.Omega.{arith}
use native.Mathlib.Nat.{mod-eq_of_lt, mod_self, mod-lt}
use native.Mathlib.Decide.{dec_lt}
use netpoke.Prelude.Lists.{
  length, take, drop, set, length-append, length-set, length-drop, length-take, take_all,
}
use netpoke.Prelude.Tests.{if◌then◌else◌, ltb, ltb→lt, ltb-false→le, le→ltb-false, Bool-cases}

-- The slot after `pos`, and round the end.
next_slot :
    (pos n : ℕ)
    → pos < n
    → ((pos + 1) % n ≡ suc pos) × (suc pos < n) ⊎ ((pos + 1) % n ≡ 0) × (suc pos ≡ n)
next_slot pos n h = elim (dec_lt (suc pos) n) [
  | yes p ↦ inl (mod-eq_of_lt {n = pos + 1} {m = n} (omega arith) ∙ omega arith, p)
  | no p ↦ inr (round (omega arith), omega arith)
]
  where
    round : pos + 1 ≡ n → (pos + 1) % n ≡ 0
    round e = rw e (mod_self n)

module _ {A : Type 0} where
  -- The last `n` items.
  abbrev pub take_last : ℕ → List A → List A
  take_last n xs = drop (length xs - n) xs

  pub take_last_all : (n : ℕ) (xs : List A) → length xs ≤ n → take_last n xs ≡ xs
  take_last_all n xs h = ap (λ k. drop k xs) nothing
    where
      nothing : length xs - n ≡ 0
      nothing = omega arith

  -- What a full ring holds, read from its oldest slot on.
  abbrev pub rotated : List A → ℕ → List A
  rotated xs pos = drop pos xs ++ take pos xs

  -- The content of a ring, oldest first.
  abbrev pub ring_contents : ℕ → List A → ℕ → List A
  ring_contents cap xs pos = if ltb (length xs) cap then xs else rotated xs pos

  drop_all : (n : ℕ) (xs : List A) → length xs ≤ n → drop n xs ≡ []
  drop_all zero [] h = refl
  drop_all zero (x ∷ xs) h = absurd (omega arith)
  drop_all (suc n) [] h = refl
  drop_all (suc n) (x ∷ xs) h = drop_all n xs (omega arith)

  take-suc-set :
      (xs : List A) (i : ℕ) (v : A)
      → i < length xs
      → take (suc i) (set xs i v) ≡ take i xs ++ (v ∷ [])
  take-suc-set [] i v h = absurd (omega arith)
  take-suc-set (x ∷ xs) zero v h = refl
  take-suc-set (x ∷ xs) (suc i) v h = ap (◌∷◌ x) (take-suc-set xs i v (omega arith))

  drop-suc-set : (xs : List A) (i : ℕ) (v : A) → drop (suc i) (set xs i v) ≡ drop (suc i) xs
  drop-suc-set [] i v = refl
  drop-suc-set (x ∷ xs) zero v = refl
  drop-suc-set (x ∷ xs) (suc i) v = drop-suc-set xs i v

  drop-suc-append :
      (xs : List A) (i : ℕ) (ys : List A)
      → i < length xs
      → drop 1 (drop i xs ++ ys) ≡ drop (suc i) xs ++ ys
  drop-suc-append [] i ys h = absurd (omega arith)
  drop-suc-append (x ∷ xs) zero ys h = refl
  drop-suc-append (x ∷ xs) (suc i) ys h = drop-suc-append xs i ys (omega arith)

  rotated-set :
      (xs : List A) (pos : ℕ) (v : A)
      → pos < length xs
      → rotated (set xs pos v) ((pos + 1) % length xs)
        ≡ drop (suc pos) xs ++ (take pos xs ++ (v ∷ []))
  rotated-set xs pos v h = elim (next_slot pos (length xs) h) [
    | inl (e, p) ↦ rw (e, drop-suc-set xs pos v, take-suc-set xs pos v h)
    | inr (e, p) ↦
        rw (e, append-nil, drop_all (suc pos) xs (omega arith), ← take-suc-set xs pos v h)
          (sym (take_all (suc pos) (set xs pos v) (omega (arith, length-set xs pos v))))
  ]

  -- What `pos` says of the vector: its end while the vector grows.
  pub record IsRing (cap : ℕ) (xs : List A) (pos : ℕ) : Type 0 where
    pub within : pos < cap
    pub fits : length xs ≤ cap
    pub growing : length xs < cap → pos ≡ length xs

  -- One write: at the end of a growing vector, over the oldest item of a full one.
  abbrev pub ring_write : ℕ → List A → ℕ → A → List A
  ring_write cap xs pos x = if ltb (length xs) cap then xs ++ (x ∷ []) else set xs pos x

  pub ring_write-IsRing :
      (cap : ℕ) (xs : List A) (pos : ℕ) (x : A)
      → IsRing cap xs pos
      → IsRing cap (ring_write cap xs pos x) ((pos + 1) % cap)
  ring_write-IsRing cap xs pos x v = record {
    within = mod-lt (pos + 1) (omega arith);
    fits = ground (arith, length-append xs (x ∷ []), length-set xs pos x);
    growing = ground (
      arith,
      length-append xs (x ∷ []),
      length-set xs pos x,
      next_slot pos cap v.within,
      v.growing,
    );
  }

  pub length-ring_contents :
      (cap : ℕ) (xs : List A) (pos : ℕ)
      → IsRing cap xs pos
      → length (ring_contents cap xs pos) ≡ length xs
  length-ring_contents cap xs pos v = ground (
    arith,
    length-append (drop pos xs) (take pos xs),
    length-take pos xs,
    length-drop pos xs,
    v.growing,
  )

  full_write :
      (cap : ℕ) (xs : List A) (pos : ℕ) (x : A)
      → IsRing cap xs pos
      → length xs ≡ cap
      → rotated (set xs pos x) ((pos + 1) % cap) ≡ drop 1 (rotated xs pos ++ (x ∷ []))
  full_write cap xs pos x v e =
      subst (λ n. rotated (set xs pos x) ((pos + 1) % n) ≡ drop 1 (rotated xs pos ++ (x ∷ []))) e
        (rotated-set xs pos x inside
          ∙ sym (
              ap (drop 1) (append_assoc (drop pos xs) (take pos xs) (x ∷ []))
              ∙ drop-suc-append xs pos (take pos xs ++ (x ∷ [])) inside))
    where
      inside : pos < length xs
      inside = omega arith

  -- A write leaves the last `cap` items of what the ring held and the new item.
  pub ring_contents-ring_write :
      (cap : ℕ) (xs : List A) (pos : ℕ) (x : A)
      → IsRing cap xs pos
      → ring_contents cap (ring_write cap xs pos x) ((pos + 1) % cap)
        ≡ take_last cap (ring_contents cap xs pos ++ (x ∷ []))
  ring_contents-ring_write cap xs pos x v = elim (Bool-cases (ltb (length xs) cap)) [
    | inl e ↦ rw e (grows (ltb→lt _ _ e))
    | inr e ↦ rw e (stays (ltb-false→le _ _ e))
  ]
    where
      grows :
          length xs < cap
          → ring_contents cap (xs ++ (x ∷ [])) ((pos + 1) % cap) ≡ take_last cap (xs ++ (x ∷ []))
      grows h = ground (
        arith,
        length-append xs (x ∷ []),
        v.growing,
        next_slot pos cap v.within,
        append-nil (xs ++ (x ∷ [])),
        take_last_all cap (xs ++ (x ∷ [])),
      )

      stays :
          cap ≤ length xs
          → ring_contents cap (set xs pos x) ((pos + 1) % cap)
            ≡ take_last cap (rotated xs pos ++ (x ∷ []))
      stays h = rw (le→ltb-false (length (set xs pos x)) cap (omega (arith, length-set xs pos x))) (
          full_write cap xs pos x v (omega arith)
          ∙ ap (λ k. drop k (rotated xs pos ++ (x ∷ []))) (sym one))
        where
          one : length (rotated xs pos ++ (x ∷ [])) - cap ≡ 1
          one = omega (
            arith,
            length-append (rotated xs pos) (x ∷ []),
            length-append (drop pos xs) (take pos xs),
            length-take pos xs,
            length-drop pos xs,
          )

  drop-drop-append :
      (n k : ℕ) (xs ys : List A)
      → k ≤ length xs
      → drop n (drop k xs ++ ys) ≡ drop (k + n) (xs ++ ys)
  drop-drop-append n zero xs ys h = ap (λ k. drop k (xs ++ ys)) (omega arith)
  drop-drop-append n (suc k) [] ys h = absurd (omega arith)
  drop-drop-append n (suc k) (x ∷ xs) ys h =
      drop-drop-append n k xs ys (omega arith) ∙ ap (λ i. drop i (x ∷ xs ++ ys)) shift
    where
      shift : suc (k + n) ≡ suc k + n
      shift = omega arith

  -- To forget early is to forget.
  pub take_last-append :
      (n : ℕ) (xs ys : List A) → take_last n (take_last n xs ++ ys) ≡ take_last n (xs ++ ys)
  take_last-append n xs ys =
      drop-drop-append (length (take_last n xs ++ ys) - n) (length xs - n) xs ys (omega arith)
      ∙ ap (λ k. drop k (xs ++ ys)) same
    where
      same : length xs - n + (length (take_last n xs ++ ys) - n) ≡ length (xs ++ ys) - n
      same = omega (
        arith,
        length-append (take_last n xs) ys,
        length-append xs ys,
        length-drop (length xs - n) xs,
      )

  pub length-take_last : (n : ℕ) (xs : List A) → length (take_last n xs) ≡ min n (length xs)
  length-take_last n xs = omega (arith, length-drop (length xs - n) xs)
