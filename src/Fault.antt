-- ===== src/Fault.antt =====
-- The result of a Rust function that returns `Option` and may panic: an index out of range, a
-- slice past the end, or a remainder by zero ends it in `panic`.
use netpoke.Prelude.{
  ℕ, ◌≤◌, ◌<◌, ◌+◌, ◌-◌, ◌≡◌, ◌≢◌, [], ◌∷◌, Bool, true, false, Option, none, some, List, ◌++◌,
  arith, leb, ltb, ◌==◌, ◌%◌, set, if◌then◌else◌, length, get_elem?, get_or, take, drop,
  get_elem?-eq-get_or, length-append, ap, sym, ◌∙◌, min, dec_le, drop-append_length, take_all,
  length-drop, get_elem?-append_right, drop-append_right,
}

pub data Outcome {ℓ} (A : Type ℓ) : Type ℓ where
  found : A → Outcome A
  missing : Outcome A
  panic : Outcome A

-- `?`, and the end of a run by a panic.
infixl 5 ◌>>=◌ ◌>>◌
abbrev pub ◌>>=◌ {ℓ κ} : {A : Type ℓ} {B : Type κ} → Outcome A → (A → Outcome B) → Outcome B
found a >>= f = f a
missing >>= f = missing
panic >>= f = panic

abbrev pub ◌>>◌ {ℓ} : {B : Type ℓ} → Outcome (Unit {0}) → Outcome B → Outcome B
m >> k = m >>= λ _. k

-- `if !test { return None; }`
abbrev pub require : Bool → Outcome (Unit {0})
require true = found tt
require false = missing

abbrev pub of_option {ℓ} : {A : Type ℓ} → Option A → Outcome A
of_option none = missing
of_option (some a) = found a

abbrev pub or_panic {ℓ} : {A : Type ℓ} → Option A → Outcome A
or_panic none = panic
or_panic (some a) = found a

-- `data[i]`
unfoldable pub index {ℓ} : {A : Type ℓ} → List A → ℕ → Outcome A
index xs i = or_panic (get_elem? xs i)

-- `data[lo..hi]`
unfoldable pub slice {ℓ} : {A : Type ℓ} → List A → ℕ → ℕ → Outcome (List A)
slice xs lo hi =
    if leb lo hi
    then (if leb hi (length xs) then found (take (hi - lo) (drop lo xs)) else panic)
    else panic

-- `data[i] = v`
unfoldable pub store {ℓ} : {A : Type ℓ} → List A → ℕ → A → Outcome (List A)
store xs i v = if ltb i (length xs) then found (set xs i v) else panic

-- `n % m`, which panics where `m` is zero.
unfoldable pub remainder : ℕ → ℕ → Outcome ℕ
remainder n m = if m == 0 then panic else found (n % m)

-- The `Option` that a run ends in, where the caller goes on from a `None` too.
abbrev pub optional {ℓ} : {A : Type ℓ} → Outcome A → Outcome (Option A)
optional (found a) = found (some a)
optional missing = found none
optional panic = panic

module _ {A : Type 0} where
  -- A read inside the list.
  pub index-lt : (xs : List A) (i : ℕ) (d : A) → i < length xs → index xs i ≡ found (get_or xs i d)
  unfolding index
  index-lt xs i d h = rw (get_elem?-eq-get_or xs i d h)

  pub index-ne-panic : (xs : List A) (i : ℕ) → i < length xs → index xs i ≢ panic
  unfolding index
  index-ne-panic [] i h = absurd (omega arith)
  index-ne-panic (x ∷ xs) i h = rw (get_elem?-eq-get_or (x ∷ xs) i x h) (λ e. cc)

  -- A slice inside the list.
  pub slice-le :
      (xs : List A) (lo hi : ℕ)
      → lo ≤ hi
      → hi ≤ length xs
      → slice xs lo hi ≡ found (take (hi - lo) (drop lo xs))
  unfolding slice
  slice-le xs lo hi h k = ground arith

  -- `data[lo..]` and `data[..hi]`
  pub slice_from :
      (xs : List A) (lo : ℕ) → lo ≤ length xs → slice xs lo (length xs) ≡ found (drop lo xs)
  slice_from xs lo h =
      slice-le xs lo (length xs) h (omega arith)
      ∙ ap found (take_all (length xs - lo) (drop lo xs) (omega (arith, length-drop lo xs)))

  pub slice_to : (xs : List A) (hi : ℕ) → hi ≤ length xs → slice xs 0 hi ≡ found (take hi xs)
  slice_to xs hi h = slice-le xs 0 hi (omega arith) h ∙ ap (λ k. found (take k xs)) none_less
    where
      none_less : hi - 0 ≡ hi
      none_less = omega arith

  -- Reads and slices behind a prefix.
  pub index-append_right : (xs ys : List A) (i : ℕ) → index (xs ++ ys) (length xs + i) ≡ index ys i
  unfolding index
  index-append_right xs ys i = rw (get_elem?-append_right xs ys i)

  pub slice-append_right :
      (xs ys : List A) (lo hi : ℕ)
      → slice (xs ++ ys) (length xs + lo) (length xs + hi) ≡ slice ys lo hi
  unfolding slice
  slice-append_right xs ys lo hi =
      ground (arith, length-append xs ys, drop-append_right xs ys lo, width)
    where
      width : length xs + hi - (length xs + lo) ≡ hi - lo
      width = omega arith

  take-min : (n : ℕ) (ys : List A) → take (min n (length ys)) ys ≡ take n ys
  take-min n ys = elim (dec_le n (length ys)) [
    | yes h ↦ ap (λ k. take k ys) (lower h)
    | no h ↦
        ap (λ k. take k ys) (upper (omega arith))
        ∙ take_all (length ys) ys (omega arith)
        ∙ sym (take_all n ys (omega arith))
  ]
    where
      lower : n ≤ length ys → min n (length ys) ≡ n
      lower h = omega arith

      upper : length ys ≤ n → min n (length ys) ≡ length ys
      upper h = omega arith

  -- At most `n` items from the end of a prefix on.
  pub slice_window :
      (xs ys : List A) (n : ℕ)
      → slice (xs ++ ys) (length xs) (min (length xs + n) (length (xs ++ ys))) ≡ found (take n ys)
  slice_window xs ys n =
      slice-le (xs ++ ys) (length xs) (min (length xs + n) (length (xs ++ ys)))
        (omega (arith, length-append xs ys)) (omega arith)
      ∙ ap (λ l. found (take (min (length xs + n) (length (xs ++ ys)) - length xs) l))
          (drop-append_length xs ys)
      ∙ ap (λ k. found (take k ys)) width
      ∙ ap found (take-min n ys)
    where
      width : min (length xs + n) (length (xs ++ ys)) - length xs ≡ min n (length ys)
      width = omega (arith, length-append xs ys)
