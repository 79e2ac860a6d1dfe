-- ===== src/Checksum/Sums.antt =====
-- The sum of 16-bit words in ones' complement: without wrapping, over a list in two pieces, and folded.
use netpoke.Prelude.{
  ℕ, suc, ◌+◌, ◌-◌, ◌*◌, ◌/◌, ◌%◌, ◌^◌, ◌≤◌, ◌<◌, ◌≡◌, refl, ap, ◌∙◌, Bool-cases, inl, inr, some,
  List, [], ◌∷◌, ◌++◌, arith, ◌==◌, length, All, dec_lt,
}
use netpoke.Checksum.{sum_words, fold, pad, complement}

abbrev pub IsOctet : ℕ → Type 0
IsOctet x = x < 256

-- The sum as a number.
abbrev pub total : List ℕ → ℕ
total [] = 0
total (a ∷ []) = a * 256
total (a ∷ b ∷ octets) = (a * 256 + b) + total octets

pub total_le :
    (octets : List ℕ) → All IsOctet octets → 2 * total octets ≤ 65535 * (length octets + 1)
total_le [] h = omega arith
total_le (a ∷ []) h = omega (arith, h.0)
total_le (a ∷ b ∷ octets) h = omega (arith, h.0, h.1.0, total_le octets h.1.1)

pub sum_words-total :
    (sum : ℕ) (octets : List ℕ)
    → sum + total octets < 2 ^ 32
    → sum_words sum octets ≡ sum + total octets
unfolding sum_words
sum_words-total sum [] h = omega arith
sum_words-total sum (a ∷ []) h = omega arith
sum_words-total sum (a ∷ b ∷ octets) h =
    let same : (sum + (a * 256 + b)) % 2 ^ 32 ≡ sum + (a * 256 + b) = omega arith in
    rw same (sum_words-total (sum + (a * 256 + b)) octets (omega arith) ∙ omega arith)

-- A list of whole words.
abbrev pub IsEven : List ℕ → Type 0
IsEven [] = Unit
IsEven (a ∷ []) = ⊥
IsEven (a ∷ b ∷ octets) = IsEven octets

pub total-append : (xs ys : List ℕ) → IsEven xs → total (xs ++ ys) ≡ total xs + total ys
total-append [] ys e = omega arith
total-append (a ∷ []) ys e = absurd e
total-append (a ∷ b ∷ xs) ys e = omega (arith, total-append xs ys e)

pub IsEven-append : (xs ys : List ℕ) → IsEven xs → IsEven ys → IsEven (xs ++ ys)
IsEven-append [] ys e f = f
IsEven-append (a ∷ []) ys e f = absurd e
IsEven-append (a ∷ b ∷ xs) ys e f = IsEven-append xs ys e f

total_zero : (octets : List ℕ) → total (octets ++ (0 ∷ [])) ≡ total octets
total_zero [] = refl
total_zero (a ∷ []) = omega arith
total_zero (a ∷ b ∷ octets) = ap (λ n. (a * 256 + b) + n) (total_zero octets)

-- The padding adds nothing.
pub total-pad : (octets : List ℕ) → total (pad octets) ≡ total octets
total-pad octets = elim (Bool-cases (length octets % 2 == 0)) [
  | inl e ↦ simp e refl
  | inr e ↦ simp e (total_zero octets)
]

fold_done : (n sum : ℕ) → sum < 65536 → fold (suc n) sum ≡ some sum
unfolding fold
fold_done n sum h = ground arith

fold_next : (n sum : ℕ) → 65536 ≤ sum → fold (suc n) sum ≡ fold n (sum % 65536 + sum / 65536)
unfolding fold
fold_next n sum h = ground arith

-- The same remainder, and 0 for 0 only.
abbrev IsFolded : ℕ → ℕ → Type 0
IsFolded sum r = (r % 65535 ≡ sum % 65535) × (1 ≤ sum → 1 ≤ r)

step-IsFolded : (sum : ℕ) → IsFolded sum (sum % 65536 + sum / 65536)
step-IsFolded sum = (omega arith, λ h. omega arith)

-- Three tests of the loop are enough for any `u32`; the result is the same number modulo 65535, and
-- is 0 for 0 only.
pub fold_lem :
    (sum : ℕ)
    → sum < 2 ^ 32
    → (r : ℕ) × (fold 3 sum ≡ some r) × (r < 65536) × (r % 65535 ≡ sum % 65535) × (1 ≤ sum → 1 ≤ r)
fold_lem sum h =
    let second = sum % 65536 + sum / 65536 in
    let third = second % 65536 + second / 65536 in
    let first_step = step-IsFolded sum in
    let second_step = step-IsFolded second in
    elim (dec_lt sum 65536) [
      | yes small ↦ (sum, fold_done 2 sum small, small, refl, λ p. p)
      | no large ↦ elim (dec_lt second 65536) [
        | yes small ↦ (
          second,
          fold_next 2 sum (omega arith) ∙ fold_done 1 second small,
          small,
          first_step.0,
          first_step.1,
        )
        | no more ↦ (
          third,
          fold_next 2 sum (omega arith)
              ∙ fold_next 1 second (omega arith)
              ∙ fold_done 0 third (omega arith),
          omega arith,
          second_step.0 ∙ first_step.0,
          λ p. second_step.1 (first_step.1 p),
        )
      ]
    ]

-- What the complement adds to a folded sum is a multiple of 65535.
pub complement_lem :
    (r : ℕ)
    → 1 ≤ r
    → r < 65536
    → (c : ℕ) × (complement (some r) ≡ some c) × (1 ≤ c) × (c < 65536) × ((r + c) % 65535 ≡ 0)
complement_lem r l h = elim (dec_lt r 65535) [
  | yes small ↦ (65535 - r, ground arith, omega arith, omega arith, omega arith)
  | no large ↦ (65535, ground arith, omega arith, omega arith, omega arith)
]
