-- ===== src/Trace/Contents.antt =====
-- What `TracingBuffer` of server/src/tracing_buffer.rs holds: the latest entries, in order.
use netpoke.Prelude.{
  ℕ, zero, suc, ◌+◌, ◌-◌, ◌%◌, ◌≤◌, ◌<◌, ◌≡◌, refl, sym, ap, ◌∙◌, Bool, true, false, List, [], ◌∷◌,
  ◌++◌, arith, append_assoc, append-nil, length, take, drop, take_all, length-drop, get_or,
  Bool-cases, inl, inr, if◌then◌else◌,
}
use netpoke.Prelude.Rings.{
  take_last, ring_contents, ring_write, IsRing, ring_write-IsRing, ring_contents-ring_write,
  take_last-append, take_last_all, length-ring_contents,
}
use netpoke.Fault.{Outcome, found, ◌>>=◌, index-lt, store, remainder}
use netpoke.Trace
use netpoke.Trace.{LogEntry, TracingBuffer, add_entry, copy_range, get_entries, clear}

-- The next index and the vector agree, for a capacity above 0.
abbrev pub IsValid : TracingBuffer → Type 0
IsValid b = IsRing b.max_entries b.entries b.next_index

-- The content as a list, oldest first.
abbrev pub contents : TracingBuffer → List LogEntry
contents b = ring_contents b.max_entries b.entries b.next_index

pub new-IsValid : (n : ℕ) (enabled : Bool) → 0 < n → IsValid (Trace.new n enabled)
unfolding Trace.new
new-IsValid n enabled h = record { within = h; fits = omega arith; growing = λ _. refl }

drop-get_or :
    (es : List LogEntry) (i : ℕ) (d : LogEntry)
    → i < length es
    → drop i es ≡ get_or es i d ∷ drop (suc i) es
drop-get_or [] i d h = absurd (omega arith)
drop-get_or (x ∷ xs) zero d h = refl
drop-get_or (x ∷ xs) (suc i) d h = drop-get_or xs i d (omega arith)

copy_range-take :
    (d : LogEntry) (es : List LogEntry) (first n : ℕ)
    → first + n ≤ length es
    → copy_range es first n ≡ found (take n (drop first es))
unfolding copy_range
copy_range-take d es first zero h = refl
copy_range-take d es first (suc n) h =
    rw
      (
        index-lt es first d (omega arith),
        copy_range-take d es (suc first) n (omega arith),
        drop-get_or es first d (omega arith),
      )
      refl

-- The loop copies a part of the vector, if the part is inside.
copy_range-inside :
    (es : List LogEntry) (first n : ℕ)
    → first + n ≤ length es
    → copy_range es first n ≡ found (take n (drop first es))
unfolding copy_range
copy_range-inside es first zero h = refl
copy_range-inside [] first (suc n) h = absurd (omega arith)
copy_range-inside (e ∷ es) first (suc n) h = copy_range-take e (e ∷ es) first (suc n) h

-- The state after an entry is added to an enabled buffer, on both branches.
abbrev written : TracingBuffer → LogEntry → TracingBuffer
written b e = record b {
  entries = ring_write b.max_entries b.entries b.next_index e;
  next_index = (b.next_index + 1) % b.max_entries;
}

add_entry-written :
    (b : TracingBuffer) (e : LogEntry)
    → IsValid b
    → b.enabled ≡ true
    → add_entry b e ≡ found (written b e)
unfolding add_entry store remainder
add_entry-written b e v h = ground (arith, v.within, v.fits, v.growing)

get_entries-contents : (b : TracingBuffer) → IsValid b → get_entries b ≡ found (contents b)
unfolding get_entries
get_entries-contents b v = ground (
  arith,
  v.within,
  v.fits,
  copy_range-inside b.entries b.next_index (length b.entries - b.next_index),
  copy_range-inside b.entries 0 b.next_index,
  take_all (length b.entries - b.next_index) (drop b.next_index b.entries),
  length-drop b.next_index b.entries,
)

-- The events of a run of the program, in their order.
unfoldable pub add_all : TracingBuffer → List LogEntry → Outcome TracingBuffer
add_all b [] = found b
add_all b (e ∷ es) = add_entry b e >>= λ b'. add_all b' es

-- A buffer that is not enabled keeps what it has.
add_all-disabled :
    (b : TracingBuffer) (es : List LogEntry) → b.enabled ≡ false → add_all b es ≡ found b
unfolding add_all add_entry
add_all-disabled b [] h = refl
add_all-disabled b (e ∷ es) h = ground (arith, add_all-disabled b es h)

contents-le : (b : TracingBuffer) → IsValid b → take_last b.max_entries (contents b) ≡ contents b
contents-le b v =
    take_last_all b.max_entries (contents b)
      (omega (arith, length-ring_contents b.max_entries b.entries b.next_index v, v.fits))

-- The log that is kept of the events `es`.
abbrev pub kept : TracingBuffer → List LogEntry → List LogEntry
kept b es = if b.enabled then take_last b.max_entries (contents b ++ es) else contents b

kept-enabled :
    (b : TracingBuffer) (es : List LogEntry)
    → IsValid b
    → b.enabled ≡ true
    → (add_all b es >>= get_entries) ≡ found (take_last b.max_entries (contents b ++ es))
unfolding add_all
kept-enabled b [] v h =
    get_entries-contents b v
    ∙ ap found
        (sym (contents-le b v) ∙ ap (take_last b.max_entries) (sym (append-nil (contents b))))
kept-enabled b (e ∷ es) v h = rw (add_entry-written b e v h) (
    kept-enabled (written b e) es (ring_write-IsRing b.max_entries b.entries b.next_index e v) h
    ∙ ap found (
        ap (λ l. take_last b.max_entries (l ++ es))
          (ring_contents-ring_write b.max_entries b.entries b.next_index e v)
        ∙ take_last-append b.max_entries (contents b ++ (e ∷ [])) es
        ∙ ap (take_last b.max_entries) (append_assoc (contents b) (e ∷ []) es)))

-- However many events are logged, a valid buffer that is enabled returns the last `max_entries` of all of them,
-- oldest first, and a disabled one what it had; no call panics.
pub get_entries-add_all :
    (b : TracingBuffer) (es : List LogEntry)
    → IsValid b
    → (add_all b es >>= get_entries) ≡ found (kept b es)
get_entries-add_all b es v = elim (Bool-cases b.enabled) [
  | inl h ↦ kept-enabled b es v h ∙ ap found (ground arith)
  | inr h ↦
      ap (λ o. o >>= get_entries) (add_all-disabled b es h)
      ∙ get_entries-contents b v
      ∙ ap found (ground arith)
]
