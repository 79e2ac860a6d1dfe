-- ===== src/Survey/Decimals.antt =====
-- The decimal numbers of a session: what is printed is parsed.
use netpoke.Prelude.{
  ℕ, zero, suc, ◌+◌, ◌-◌, ◌≢◌, ◌*◌, ◌/◌, ◌%◌, ◌^◌, ◌≤◌, ◌<◌, ◌≡◌, refl, ◌∙◌, Option, none, some, [],
  ◌∷◌, ◌++◌, arith, ltb, if◌then◌else◌, All, All-append, Bool-cases, inl, inr,
}
use netpoke.Survey.Texts.{Text, digits, decimal, parse_digits, parse_u64}

abbrev then_parse : Option ℕ → Text → Option ℕ
then_parse none text = none
then_parse (some n) text = parse_digits n text

parse_digits-append :
    (n : ℕ) (xs ys : Text) → parse_digits n (xs ++ ys) ≡ then_parse (parse_digits n xs) ys
unfolding parse_digits
parse_digits-append n [] ys = refl
parse_digits-append n (c ∷ cs) ys = ground (arith, parse_digits-append (n * 10 + (c - 48)) cs ys)

-- Ten to the power of `k`.
abbrev tens : ℕ → ℕ
tens zero = 1
tens (suc k) = 10 * tens k

digits-suc :
    (k n : ℕ)
    → digits (suc k) n
      ≡ (if ltb n 10 then (48 + n) ∷ [] else digits k (n / 10) ++ ((48 + n % 10) ∷ []))
unfolding digits
digits-suc k n = refl

-- One more digit behind.
parse_digits-next :
    (front : Text) (n : ℕ)
    → parse_digits 0 front ≡ some (n / 10)
    → n < 2 ^ 64
    → parse_digits 0 (front ++ ((48 + n % 10) ∷ [])) ≡ some n
unfolding parse_digits
parse_digits-next front n e b =
    parse_digits-append 0 front ((48 + n % 10) ∷ []) ∙ rw e (ground arith)

parse_one : (n : ℕ) → n < 10 → parse_digits 0 ((48 + n) ∷ []) ≡ some n
unfolding parse_digits
parse_one n h = ground arith

parse_digits-digits :
    (k n : ℕ) → 0 < k → n < tens k → n < 2 ^ 64 → parse_digits 0 (digits k n) ≡ some n
parse_digits-digits zero n p h b = absurd (omega arith)
parse_digits-digits (suc k) n p h b = elim (Bool-cases (ltb n 10)) [
  | inl e ↦ rw (digits-suc k n) (rw e (parse_one n (ground arith)))
  | inr e ↦ rw (digits-suc k n) (
      rw e (
        parse_digits-next (digits k (n / 10)) n
          (parse_digits-digits k (n / 10) (positive k (ground arith) (omega arith)) (omega arith)
            (omega arith))
          b))
]
  where
    positive : (k : ℕ) → 10 ≤ n → n / 10 < tens k → 0 < k
    positive zero q l = absurd (omega arith)
    positive (suc k) q l = omega arith

abbrev pub IsDigit : ℕ → Type 0
IsDigit c = (48 ≤ c) × (c ≤ 57)

digits-IsDigit : (k n : ℕ) → All IsDigit (digits k n)
unfolding digits
digits-IsDigit zero n = tt
digits-IsDigit (suc k) n = elim (Bool-cases (ltb n 10)) [
  | inl e ↦ rw e (ground arith, tt)
  | inr e ↦ rw e (
      All-append IsDigit (digits k (n / 10)) ((48 + n % 10) ∷ []) (digits-IsDigit k (n / 10))
        ((omega arith, omega arith), tt))
]

pub decimal-IsDigit : (n : ℕ) → All IsDigit (decimal n)
unfolding decimal
decimal-IsDigit n = digits-IsDigit 20 n

snoc-ne-nil : (xs : Text) (y : ℕ) → xs ++ (y ∷ []) ≢ []
snoc-ne-nil [] y = λ e. cc
snoc-ne-nil (x ∷ xs) y = λ e. cc

digits-ne-nil : (k n : ℕ) → digits (suc k) n ≢ []
digits-ne-nil k n = elim (Bool-cases (ltb n 10)) [
  | inl e ↦ rw (digits-suc k n) (rw e (λ q. cc))
  | inr e ↦ rw (digits-suc k n) (rw e (snoc-ne-nil (digits k (n / 10)) (48 + n % 10)))
]

-- A text of digits is parsed as it stands.
parse_u64-digits :
    (text : Text) (n : ℕ)
    → All IsDigit text
    → parse_digits 0 text ≡ some n
    → text ≢ []
    → parse_u64 text ≡ some n
unfolding parse_u64
parse_u64-digits [] n a e h = absurd (h refl)
parse_u64-digits (c ∷ []) n a e h = e
parse_u64-digits (c ∷ d ∷ cs) n a e h = ground (arith, a.0.0)

pub parse_u64-decimal : (n : ℕ) → n < 2 ^ 64 → parse_u64 (decimal n) ≡ some n
unfolding decimal
parse_u64-decimal n b =
    parse_u64-digits (digits 20 n) n (digits-IsDigit 20 n)
      (parse_digits-digits 20 n (omega arith) (omega arith) b) (digits-ne-nil 19 n)
