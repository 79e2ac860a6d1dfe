-- ===== src/Probes/Loss.antt =====
-- server/src/measurements.rs: the loss rate and the sequence numbers that are missing.
use netpoke.Prelude.{
  ℕ, zero, suc, ◌+◌, ◌-◌, ◌^◌, ◌≤◌, ◌<◌, ◌≡◌, refl, Bool, false, ◌||◌, ◌&&◌, List, [], ◌∷◌, arith,
  ltb, leb, ◌==◌, min, max, if◌then◌else◌, length, All, All-map,
}
use netpoke.Probes.Counting.{min_seq, max_seq}
use netpoke.Probes.Floats.{Floats}
use netpoke.Probes.Metrics.{loss_rate}

abbrev pub has : ℕ → List ℕ → Bool
has n [] = false
has n (x ∷ xs) = x == n || has n xs

-- No number twice.
abbrev pub IsDistinct : List ℕ → Type 0
IsDistinct [] = Unit
IsDistinct (x ∷ xs) = (has x xs ≡ false) × IsDistinct xs

-- How many of the `n` numbers from `lo` on are not in the list.
unfoldable pub missing : ℕ → ℕ → List ℕ → ℕ
missing lo zero xs = 0
missing lo (suc n) xs = (if has lo xs then 0 else 1) + missing (suc lo) n xs

-- How many items of the list are among the `n` numbers from `lo` on.
count_in : ℕ → ℕ → List ℕ → ℕ
count_in lo n [] = 0
count_in lo n (x ∷ xs) = (if leb lo x && ltb x (lo + n) then 1 else 0) + count_in lo n xs

count_in-zero : (lo : ℕ) (xs : List ℕ) → count_in lo 0 xs ≡ 0
unfolding count_in
count_in-zero lo [] = refl
count_in-zero lo (x ∷ xs) = ground (arith, count_in-zero lo xs)

count_in-absent :
    (lo n : ℕ) (xs : List ℕ) → has lo xs ≡ false → count_in lo (suc n) xs ≡ count_in (suc lo) n xs
unfolding count_in
count_in-absent lo n [] h = refl
count_in-absent lo n (x ∷ xs) h = ground (arith, count_in-absent lo n xs)

count_in-suc :
    (lo n : ℕ) (xs : List ℕ)
    → IsDistinct xs
    → count_in lo (suc n) xs ≡ (if has lo xs then 1 else 0) + count_in (suc lo) n xs
unfolding count_in
count_in-suc lo n [] d = refl
count_in-suc lo n (x ∷ xs) d = ground (arith, count_in-suc lo n xs d.1, count_in-absent lo n xs)

missing-count_in : (lo n : ℕ) (xs : List ℕ) → IsDistinct xs → missing lo n xs + count_in lo n xs ≡ n
unfolding missing
missing-count_in lo zero xs d = ground (arith, count_in-zero lo xs)
missing-count_in lo (suc n) xs d =
    ground (arith, count_in-suc lo n xs d, missing-count_in (suc lo) n xs d)

count_in_full :
    (lo n : ℕ) (xs : List ℕ) → All (λ x. (lo ≤ x) × (x < lo + n)) xs → count_in lo n xs ≡ length xs
unfolding count_in
count_in_full lo n [] a = refl
count_in_full lo n (x ∷ xs) a = ground (arith, count_in_full lo n xs a.1)

min_seq-le : (a : ℕ) (xs : List ℕ) → (min_seq a xs ≤ a) × All (λ x. min_seq a xs ≤ x) xs
unfolding min_seq
min_seq-le a [] = (omega arith, tt)
min_seq-le a (x ∷ xs) =
    let (bound, rest) = min_seq-le (min a x) xs in (omega arith, (omega arith, rest))

le-max_seq : (a : ℕ) (xs : List ℕ) → (a ≤ max_seq a xs) × All (λ x. x ≤ max_seq a xs) xs
unfolding max_seq
le-max_seq a [] = (omega arith, tt)
le-max_seq a (x ∷ xs) =
    let (bound, rest) = le-max_seq (max a x) xs in (omega arith, (omega arith, rest))

All-both : (P Q : ℕ → Type 0) (xs : List ℕ) → All P xs → All Q xs → All (λ x. P x × Q x) xs
All-both P Q [] p q = tt
All-both P Q (x ∷ xs) p q = ((p.0, q.0), All-both P Q xs p.1 q.1)

-- How many sequence numbers a list spans, from its least to its greatest.
abbrev pub span : ℕ → List ℕ → ℕ
span seq seqs = max_seq seq seqs - min_seq seq seqs + 1

-- All of the span, and not in the list.
abbrev pub lost : ℕ → List ℕ → ℕ
lost seq seqs = missing (min_seq seq seqs) (span seq seqs) (seq ∷ seqs)

in_span :
    (seq : ℕ) (seqs : List ℕ)
    → All (λ x. (min_seq seq seqs ≤ x) × (x < min_seq seq seqs + span seq seqs)) (seq ∷ seqs)
in_span seq seqs = (
  omega (arith, (min_seq-le seq seqs).0, (le-max_seq seq seqs).0),
  All-map (λ x. (min_seq seq seqs ≤ x) × (x ≤ max_seq seq seqs))
      (λ x. (min_seq seq seqs ≤ x) × (x < min_seq seq seqs + span seq seqs)) seqs
      (λ x h. omega arith)
      (All-both (λ x. min_seq seq seqs ≤ x) (λ x. x ≤ max_seq seq seqs) seqs (min_seq-le seq seqs).1
        (le-max_seq seq seqs).1),
)

lost-length :
    (seq : ℕ) (seqs : List ℕ)
    → IsDistinct (seq ∷ seqs)
    → lost seq seqs + length (seq ∷ seqs) ≡ span seq seqs
lost-length seq seqs d = omega (
  arith,
  missing-count_in (min_seq seq seqs) (span seq seqs) (seq ∷ seqs) d,
  count_in_full (min_seq seq seqs) (span seq seqs) (seq ∷ seqs) (in_span seq seqs),
)

-- Of packets without a repeated sequence number, two or more, the loss rate is the share of the
-- missing numbers among all from the least to the greatest, so that what is expected is never less
-- than what came. The span fits a `u64`.
pub loss_rate-lost :
    (f : Floats) (seq other : ℕ) (seqs : List ℕ)
    → IsDistinct (seq ∷ other ∷ seqs)
    → span seq (other ∷ seqs) < 2 ^ 64
    → let gone = lost seq (other ∷ seqs) in
      let received = length (seq ∷ other ∷ seqs) in
      loss_rate f (seq ∷ other ∷ seqs)
      ≡ f.max
          (f.mul
            (f.div
              (f.sub (f.of_nat (gone + received)) (f.of_nat received))
              (f.of_nat (gone + received)))
            f.hundred)
          f.zero
unfolding loss_rate
loss_rate-lost f seq other seqs d h = ground (arith, lost-length seq (other ∷ seqs) d)
