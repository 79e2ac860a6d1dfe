-- ===== src/Probes/Counting.antt =====
-- server/src/measurements.rs: what the metrics count on sequence numbers. The loop on `max_seq_seen`
-- stands there three times, the bounds of the sequence numbers twice.
use netpoke.Prelude.{
  ℕ, ◌+◌, ◌≤◌, ◌≡◌, ◌↔◌, refl, Bool, false, ◌||◌, List, [], ◌∷◌, arith, ltb, min, max,
  if◌then◌else◌,
}

-- The loop that counts what comes after a greater number, with the greatest number so far.
unfoldable pub count_reorders : ℕ → List ℕ → ℕ
count_reorders max_seq_seen [] = 0
count_reorders max_seq_seen (seq ∷ seqs) =
    (if ltb seq max_seq_seen then 1 else 0) + count_reorders (max max_seq_seen seq) seqs

-- `.min()` and `.max()` of a list that is not empty, from its first item.
unfoldable pub min_seq : ℕ → List ℕ → ℕ
min_seq seq [] = seq
min_seq seq (s ∷ ss) = min_seq (min seq s) ss

unfoldable pub max_seq : ℕ → List ℕ → ℕ
max_seq seq [] = seq
max_seq seq (s ∷ ss) = max_seq (max seq s) ss

-- Did a greater number come before?
abbrev pub is_overtaken : ℕ → List ℕ → Bool
is_overtaken seq [] = false
is_overtaken seq (x ∷ xs) = ltb seq x || is_overtaken seq xs

-- How many numbers came after a greater one, by looking at all that came before.
unfoldable pub count_late : List ℕ → List ℕ → ℕ
count_late before [] = 0
count_late before (seq ∷ seqs) =
    (if is_overtaken seq before then 1 else 0) + count_late (seq ∷ before) seqs

abbrev greatest : List ℕ → ℕ
greatest [] = 0
greatest (x ∷ xs) = max (greatest xs) x

is_overtaken-greatest :
    (seq : ℕ) (before : List ℕ) → is_overtaken seq before ≡ ltb seq (greatest before)
is_overtaken-greatest seq [] = ground arith
is_overtaken-greatest seq (x ∷ xs) = ground (arith, is_overtaken-greatest seq xs)

count_reorders-greatest :
    (before seqs : List ℕ) → count_reorders (greatest before) seqs ≡ count_late before seqs
unfolding count_reorders count_late
count_reorders-greatest before [] = refl
count_reorders-greatest before (seq ∷ seqs) =
    ground (arith, is_overtaken-greatest seq before, count_reorders-greatest (seq ∷ before) seqs)

abbrev pub IsAscending : ℕ → List ℕ → Type 0
IsAscending from [] = Unit
IsAscending from (x ∷ xs) = (from ≤ x) × IsAscending x xs

IsAscending-of_none : (m : ℕ) (seqs : List ℕ) → count_reorders m seqs ≡ 0 → IsAscending m seqs
unfolding count_reorders
IsAscending-of_none m [] h = tt
IsAscending-of_none m (seq ∷ seqs) h = (ground arith, IsAscending-of_none seq seqs (ground arith))

none_of_ascending : (m : ℕ) (seqs : List ℕ) → IsAscending m seqs → count_reorders m seqs ≡ 0
unfolding count_reorders
none_of_ascending m [] h = refl
none_of_ascending m (seq ∷ seqs) h = ground (arith, none_of_ascending seq seqs h.1)

-- The loop counts the packets that come after one with a greater sequence number, however far before,
-- and counts none exactly if the sequence numbers never fall.
pub count_reorders_lem :
    (seqs : List ℕ)
    → (count_reorders 0 seqs ≡ count_late [] seqs)
      × ((count_reorders 0 seqs ≡ 0) ↔ IsAscending 0 seqs)
count_reorders_lem seqs =
    (count_reorders-greatest [] seqs, (IsAscending-of_none 0 seqs, none_of_ascending 0 seqs))
