-- ===== src/Probes/Mirror.antt =====
-- server/src/measurements.rs: the queue of the sent probes and the map by their sequence numbers, which
-- the senders keep side by side.
use netpoke.Prelude.{
  ℕ, zero, suc, ◌+◌, ◌-◌, ◌≤◌, ◌<◌, ◌≡◌, refl, sym, ap, ◌∙◌, none, some, List, [], ◌∷◌, ◌++◌,
  if◌then◌else◌, arith, inl, inr, Bool-cases, leb, ltb, ◌==◌, length, length-append, get_elem?,
  get_elem?_out, drop, ℕ_discrete, Map, lookup, insert, remove, lookup-insert, lookup-remove,
}
use netpoke.Probes.{SentProbe}
use netpoke.Probes.Session.{trim_sent}

-- The queue is the log but for its first items, all older than the cutoff; the map has what the queue
-- has; and the log is numbered from `base` on.
pub record IsMirror (base cutoff : ℕ) (queue : List SentProbe) (sent_map : Map ℕ SentProbe)
    (log : List SentProbe) : Type 0 where
  pub dropped : ℕ
  pub fits : dropped ≤ length log
  pub queue_is : queue ≡ drop dropped log
  pub mapped :
      (j : ℕ)
      → lookup ℕ_discrete j sent_map
        ≡ (if leb (base + dropped) j then get_elem? log (j - base) else none)
  pub numbered : (i : ℕ) (p : SentProbe) → get_elem? log i ≡ some p → p.seq ≡ base + i
  pub old : (i : ℕ) (p : SentProbe) → i < dropped → get_elem? log i ≡ some p → p.sent_at_ms < cutoff

pub empty-IsMirror : (base cutoff : ℕ) → IsMirror base cutoff [] [] []
unfolding lookup
empty-IsMirror base cutoff = record {
  dropped = 0;
  fits = omega arith;
  queue_is = refl;
  mapped = λ j. ground arith;
  numbered = λ i p h. cc;
  old = λ i p h g. cc;
}

pub later-IsMirror :
    (base b c : ℕ) (queue : List SentProbe) (sent_map : Map ℕ SentProbe) (log : List SentProbe)
    → b ≤ c
    → IsMirror base b queue sent_map log
    → IsMirror base c queue sent_map log
later-IsMirror base b c queue sent_map log h m = record {
  dropped = m.dropped;
  fits = m.fits;
  queue_is = m.queue_is;
  mapped = m.mapped;
  numbered = m.numbered;
  old = λ i p l g. omega (arith, m.old i p l g);
}

drop-split :
    (k : ℕ) (log : List SentProbe) (p : SentProbe) (ps : List SentProbe)
    → p ∷ ps ≡ drop k log
    → (get_elem? log k ≡ some p) × (ps ≡ drop (suc k) log) × (k < length log)
drop-split zero [] p ps h = absurd (ground arith)
drop-split zero (x ∷ xs) p ps h = (ground arith, ground arith, omega arith)
drop-split (suc k) [] p ps h = absurd (ground arith)
drop-split (suc k) (x ∷ xs) p ps h =
    let (found, rest, bound) = drop-split k xs p ps h in (found, rest, omega arith)

-- One turn of the loop.
drop_front :
    (base cutoff : ℕ) (p : SentProbe) (ps : List SentProbe) (sent_map : Map ℕ SentProbe)
    (log : List SentProbe)
    → p.sent_at_ms < cutoff
    → IsMirror base cutoff (p ∷ ps) sent_map log
    → IsMirror base cutoff ps (remove ℕ_discrete p.seq sent_map) log
drop_front base cutoff p ps sent_map log h m = record {
  dropped = suc m.dropped;
  fits = split.2;
  queue_is = split.1;
  mapped = λ j. ground (
    arith,
    lookup-remove ℕ_discrete p.seq j sent_map,
    m.mapped j,
    m.numbered m.dropped p split.0,
  );
  numbered = m.numbered;
  old = λ i q l g. ground (arith, m.old i q, split.0);
}
  where
    split :
        (get_elem? log m.dropped ≡ some p)
        × (ps ≡ drop (suc m.dropped) log)
        × (m.dropped < length log)
    split = drop-split m.dropped log p ps m.queue_is

pub trim_sent-IsMirror :
    (base cutoff : ℕ) (queue : List SentProbe) (sent_map : Map ℕ SentProbe) (log : List SentProbe)
    → IsMirror base cutoff queue sent_map log
    → let kept = trim_sent cutoff queue sent_map in IsMirror base cutoff kept.0 kept.1 log
unfolding trim_sent
trim_sent-IsMirror base cutoff [] sent_map log m = m
trim_sent-IsMirror base cutoff (p ∷ ps) sent_map log m =
    elim (Bool-cases (ltb p.sent_at_ms cutoff)) [
      | inl e ↦ rw e (
          trim_sent-IsMirror base cutoff ps (remove ℕ_discrete p.seq sent_map) log
            (drop_front base cutoff p ps sent_map log (ground arith) m))
      | inr e ↦ rw e m
    ]

get_elem?-snoc :
    (log : List SentProbe) (y : SentProbe) (i : ℕ)
    → get_elem? (log ++ (y ∷ [])) i ≡ (if i == length log then some y else get_elem? log i)
get_elem?-snoc [] y zero = ground arith
get_elem?-snoc [] y (suc i) = ground arith
get_elem?-snoc (x ∷ xs) y zero = ground arith
get_elem?-snoc (x ∷ xs) y (suc i) = ground (arith, get_elem?-snoc xs y i)

drop-snoc :
    (k : ℕ) (log : List SentProbe) (y : SentProbe)
    → k ≤ length log
    → drop k (log ++ (y ∷ [])) ≡ drop k log ++ (y ∷ [])
drop-snoc zero log y h = refl
drop-snoc (suc k) [] y h = absurd (omega arith)
drop-snoc (suc k) (x ∷ xs) y h = drop-snoc k xs y (omega arith)

-- A probe with the next number, behind.
pub push-IsMirror :
    (base cutoff : ℕ) (queue : List SentProbe) (sent_map : Map ℕ SentProbe) (log : List SentProbe)
    (y : SentProbe)
    → y.seq ≡ base + length log
    → IsMirror base cutoff queue sent_map log
    → IsMirror base cutoff
        (queue ++ (y ∷ []))
        (insert ℕ_discrete y.seq y sent_map)
        (log ++ (y ∷ []))
push-IsMirror base cutoff queue sent_map log y e m = record {
  dropped = m.dropped;
  fits = omega (arith, length-append log (y ∷ []), m.fits);
  queue_is = ap (λ q. q ++ (y ∷ [])) m.queue_is ∙ sym (drop-snoc m.dropped log y m.fits);
  mapped = λ j. ground (
    arith,
    lookup-insert ℕ_discrete y.seq j y sent_map,
    m.mapped j,
    get_elem?-snoc log y (j - base),
    get_elem?_out log (j - base),
    m.fits,
    e,
  );
  numbered = λ i p h. ground (arith, get_elem?-snoc log y i, m.numbered i p, e);
  old = λ i p l g. ground (arith, get_elem?-snoc log y i, m.old i p l, m.fits);
}

-- What was sent and is not old is in the map.
pub mirror-lookup :
    (base cutoff i : ℕ) (queue : List SentProbe) (sent_map : Map ℕ SentProbe) (log : List SentProbe)
    (p : SentProbe)
    → get_elem? log i ≡ some p
    → cutoff ≤ p.sent_at_ms
    → IsMirror base cutoff queue sent_map log
    → lookup ℕ_discrete p.seq sent_map ≡ some p
mirror-lookup base cutoff i queue sent_map log p found h m =
    ap (λ j. lookup ℕ_discrete j sent_map) (m.numbered i p found)
    ∙ ground (arith, m.mapped (base + i), m.old i p, found)
