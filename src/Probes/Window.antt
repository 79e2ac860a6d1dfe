-- ===== src/Probes/Window.antt =====
-- server/src/measurements.rs: the loop that forgets what is older than a cutoff at the front of a
-- queue, and the part of a queue that is not older. Both read a time of each item.
use netpoke.Prelude.{
  ℕ, ◌-◌, ◌^◌, All-map, ◌≤◌, ◌<◌, ◌≡◌, refl, ap, ◌∙◌, sym, List, [], ◌∷◌, ◌++◌, arith, ltb, leb,
  if◌then◌else◌, All, All-append,
}
use netpoke.Probes.{minute_ago}

module _ {A : Type 0} (time : A → ℕ) where
  -- `while let Some(p) = queue.front() { if time(p) < cutoff { queue.pop_front(); } else { break; } }`
  unfoldable pub trim : ℕ → List A → List A
  trim cutoff [] = []
  trim cutoff (x ∷ xs) = let rest = trim cutoff xs in if ltb (time x) cutoff then rest else x ∷ xs

  -- `queue.iter().filter(|p| time(p) >= cutoff)`
  unfoldable pub recent : ℕ → List A → List A
  recent cutoff [] = []
  recent cutoff (x ∷ xs) = if leb cutoff (time x) then x ∷ recent cutoff xs else recent cutoff xs

  -- Oldest first, and no item older than `from`.
  abbrev pub IsOldestFirst : ℕ → List A → Type 0
  IsOldestFirst from [] = Unit
  IsOldestFirst from (x ∷ xs) = (from ≤ time x) × IsOldestFirst (time x) xs

  pub IsOldestFirst-mono : (a b : ℕ) (xs : List A) → a ≤ b → IsOldestFirst b xs → IsOldestFirst a xs
  IsOldestFirst-mono a b [] h o = tt
  IsOldestFirst-mono a b (x ∷ xs) h o = (omega arith, o.1)

  recent_all : (c from : ℕ) (xs : List A) → c ≤ from → IsOldestFirst from xs → recent c xs ≡ xs
  unfolding recent
  recent_all c from [] h o = refl
  recent_all c from (x ∷ xs) h o = ground (arith, recent_all c (time x) xs)

  -- On a queue that is oldest first the loop finds just what the filter finds.
  pub trim-eq-recent : (c from : ℕ) (xs : List A) → IsOldestFirst from xs → trim c xs ≡ recent c xs
  unfolding trim recent
  trim-eq-recent c from [] o = refl
  trim-eq-recent c from (x ∷ xs) o =
      ground (arith, trim-eq-recent c (time x) xs o.1, recent_all c (time x) xs)

  -- What is young enough stays at the end, whatever stands before it.
  pub trim-append :
      (cutoff : ℕ) (xs : List A) (x : A)
      → cutoff ≤ time x
      → trim cutoff (xs ++ (x ∷ [])) ≡ trim cutoff xs ++ (x ∷ [])
  unfolding trim
  trim-append cutoff [] x h = ground (arith, h)
  trim-append cutoff (y ∷ xs) x h = ground (arith, h, trim-append cutoff xs x h)

  -- To forget early is to forget.
  pub recent-recent : (b c : ℕ) (xs : List A) → b ≤ c → recent c (recent b xs) ≡ recent c xs
  unfolding recent
  recent-recent b c [] h = refl
  recent-recent b c (x ∷ xs) h = ground (arith, recent-recent b c xs)

  pub recent-append : (c : ℕ) (xs ys : List A) → recent c (xs ++ ys) ≡ recent c xs ++ recent c ys
  unfolding recent
  recent-append c [] ys = refl
  recent-append c (x ∷ xs) ys = ground (arith, recent-append c xs ys)

  pub recent-IsOldestFirst :
      (c from : ℕ) (xs : List A) → IsOldestFirst from xs → IsOldestFirst from (recent c xs)
  unfolding recent
  recent-IsOldestFirst c from [] o = tt
  recent-IsOldestFirst c from (x ∷ xs) o = ground (
    arith,
    recent-IsOldestFirst c (time x) xs o.1,
    IsOldestFirst-mono from (time x) (recent c xs),
  )

  -- A newer item behind.
  pub append-IsOldestFirst :
      (from until : ℕ) (xs : List A) (y : A)
      → IsOldestFirst from xs
      → All (λ x. time x ≤ until) xs
      → until ≤ time y
      → from ≤ until
      → IsOldestFirst from (xs ++ (y ∷ []))
  append-IsOldestFirst from until [] y o a h g = (omega arith, tt)
  append-IsOldestFirst from until (x ∷ xs) y o a h g =
      (o.0, append-IsOldestFirst (time x) until xs y o.1 a.1 h a.0)

  -- A queue at the time `until` against the log of all that came into it: at most what is older than a
  -- minute is missing.
  pub record IsWindow (until : ℕ) (queue log : List A) : Type 0 where
    pub cutoff : ℕ
    pub within : cutoff ≤ until - 60000
    pub kept : queue ≡ recent cutoff log
    pub ordered : IsOldestFirst 0 log
    pub past : All (λ x. time x ≤ until) log

  pub empty-IsWindow : (until : ℕ) → IsWindow until [] []
  unfolding recent
  empty-IsWindow until = record {
    cutoff = 0;
    within = omega arith;
    kept = refl;
    ordered = tt;
    past = tt;
  }

  pub later-IsWindow :
      (t u : ℕ) (queue log : List A) → t ≤ u → IsWindow t queue log → IsWindow u queue log
  later-IsWindow t u queue log h w = record {
    cutoff = w.cutoff;
    within = omega (arith, w.within);
    kept = w.kept;
    ordered = w.ordered;
    past = All-map (λ x. time x ≤ t) (λ x. time x ≤ u) log (λ x g. omega arith) w.past;
  }

  recent_one : (c : ℕ) (y : A) → c ≤ time y → recent c (y ∷ []) ≡ y ∷ []
  unfolding recent
  recent_one c y h = ground arith

  push-recent :
      (c : ℕ) (queue log : List A) (y : A)
      → queue ≡ recent c log
      → c ≤ time y
      → queue ++ (y ∷ []) ≡ recent c (log ++ (y ∷ []))
  push-recent c queue log y e h =
      ap (λ q. q ++ (y ∷ [])) e
      ∙ sym (recent-append c log (y ∷ []) ∙ ap (λ r. recent c log ++ r) (recent_one c y h))

  trim-minute_ago :
      (now : ℕ) (xs : List A)
      → 60000 ≤ now
      → now < 2 ^ 64
      → IsOldestFirst 0 xs
      → trim (minute_ago now) xs ≡ recent (now - 60000) xs
  trim-minute_ago now xs lo hi o = ap (λ c. trim c xs) exact ∙ trim-eq-recent (now - 60000) 0 xs o
    where
      exact : minute_ago now ≡ now - 60000
      exact = omega arith

  -- An item comes in, and the loop forgets what is older than a minute.
  pub push-IsWindow :
      (t now : ℕ) (queue log : List A) (y : A)
      → t ≤ now
      → 60000 ≤ now
      → now < 2 ^ 64
      → time y ≡ now
      → IsWindow t queue log
      → IsWindow now (trim (minute_ago now) (queue ++ (y ∷ []))) (log ++ (y ∷ []))
  unfolding recent
  push-IsWindow t now queue log y h lo hi e w = record {
    cutoff = now - 60000;
    within = omega arith;
    kept =
        ap (trim (minute_ago now)) whole
        ∙ trim-minute_ago now (recent w.cutoff (log ++ (y ∷ []))) lo hi
            (recent-IsOldestFirst w.cutoff 0 (log ++ (y ∷ [])) ordered)
        ∙ recent-recent w.cutoff (now - 60000) (log ++ (y ∷ [])) (omega (arith, w.within));
    ordered = ordered;
    past =
        All-append (λ x. time x ≤ now) log (y ∷ [])
          (All-map (λ x. time x ≤ t) (λ x. time x ≤ now) log (λ x g. omega arith) w.past)
          (omega arith, tt);
  }
    where
      ordered : IsOldestFirst 0 (log ++ (y ∷ []))
      ordered = append-IsOldestFirst 0 t log y w.ordered w.past (omega arith) (omega arith)

      whole : queue ++ (y ∷ []) ≡ recent w.cutoff (log ++ (y ∷ []))
      whole = push-recent w.cutoff queue log y w.kept (omega (arith, w.within))

  -- What is not older than a minute is read from the queue as from the log.
  pub recent-IsWindow :
      (t now window : ℕ) (queue log : List A)
      → t ≤ now
      → window ≤ 60000
      → IsWindow t queue log
      → recent (now - window) queue ≡ recent (now - window) log
  recent-IsWindow t now window queue log h k w =
      ap (recent (now - window)) w.kept
      ∙ recent-recent w.cutoff (now - window) log (omega (arith, w.within))
