-- ===== src/Upload/Files.antt =====
-- server/src/upload_api.rs: what a file holds after a chunk of a content is written into it.
use netpoke.Prelude.{
  ℕ, zero, suc, ◌+◌, ◌-◌, ◌*◌, ◌≤◌, ◌<◌, ◌≡◌, refl, ap, ◌∙◌, none, some, List, [], ◌∷◌, ◌++◌, arith,
  length, length-append, length-drop, take, drop, get_elem?, get_elem?_out, get_elem?-eq-get_or,
  ltb, max, if◌then◌else◌, length-take,
}
use netpoke.Upload.{write_at, zeros, chunk_size}

length-zeros : (n : ℕ) → length (zeros n) ≡ n
length-zeros zero = refl
length-zeros (suc n) = ap suc (length-zeros n)

get_elem?-append :
    (xs ys : List ℕ) (j : ℕ)
    → get_elem? (xs ++ ys) j
      ≡ (if ltb j (length xs) then get_elem? xs j else get_elem? ys (j - length xs))
get_elem?-append [] ys j = ground arith
get_elem?-append (x ∷ xs) ys zero = ground arith
get_elem?-append (x ∷ xs) ys (suc j) = ground (arith, get_elem?-append xs ys j)

get_elem?-take :
    (n : ℕ) (xs : List ℕ) (j : ℕ)
    → get_elem? (take n xs) j ≡ (if ltb j n then get_elem? xs j else none)
get_elem?-take zero xs j = ground arith
get_elem?-take (suc n) [] j = ground arith
get_elem?-take (suc n) (x ∷ xs) zero = ground arith
get_elem?-take (suc n) (x ∷ xs) (suc j) = ground (arith, get_elem?-take n xs j)

get_elem?-drop : (n : ℕ) (xs : List ℕ) (j : ℕ) → get_elem? (drop n xs) j ≡ get_elem? xs (n + j)
get_elem?-drop zero xs j = ap (get_elem? xs) (omega arith)
get_elem?-drop (suc n) [] j = refl
get_elem?-drop (suc n) (x ∷ xs) j = ground (arith, get_elem?-drop n xs j)

get_elem?-zeros : (n j : ℕ) → get_elem? (zeros n) j ≡ (if ltb j n then some 0 else none)
get_elem?-zeros zero j = ground arith
get_elem?-zeros (suc n) zero = ground arith
get_elem?-zeros (suc n) (suc j) = ground (arith, get_elem?-zeros n j)

-- Two lists that read alike are one.
pub get_elem?_ext : (xs ys : List ℕ) → ((j : ℕ) → get_elem? xs j ≡ get_elem? ys j) → xs ≡ ys
get_elem?_ext [] [] h = refl
get_elem?_ext [] (y ∷ ys) h = absurd (ground (arith, h 0))
get_elem?_ext (x ∷ xs) [] h = absurd (ground (arith, h 0))
get_elem?_ext (x ∷ xs) (y ∷ ys) h = ground (arith, h 0, get_elem?_ext xs ys (λ j. h (suc j)))

restored : (a j : ℕ) (file : List ℕ) → a ≤ j → get_elem? (drop a file) (j - a) ≡ get_elem? file j
restored a j file h = get_elem?-drop a file (j - a) ∙ ap (get_elem? file) (omega arith)

-- What reads in the four parts of a list.
get_elem?-parts :
    (head gap mid rest : List ℕ) (j : ℕ)
    → get_elem? (((head ++ gap) ++ mid) ++ rest) j ≡ (
        if ltb j (length head)
        then get_elem? head j
        else if ltb j (length head + length gap)
        then get_elem? gap (j - length head)
        else if ltb j (length head + length gap + length mid)
        then get_elem? mid (j - (length head + length gap))
        else get_elem? rest (j - (length head + length gap + length mid)))
get_elem?-parts head gap mid rest j = ground (
  arith,
  get_elem?-append ((head ++ gap) ++ mid) rest j,
  get_elem?-append (head ++ gap) mid j,
  get_elem?-append head gap j,
  length-append (head ++ gap) mid,
  length-append head gap,
)

length-parts :
    (head gap mid rest : List ℕ)
    → length (((head ++ gap) ++ mid) ++ rest) ≡ length head + length gap + length mid + length rest
length-parts head gap mid rest = omega (
  arith,
  length-append ((head ++ gap) ++ mid) rest,
  length-append (head ++ gap) mid,
  length-append head gap,
)

-- Within the octets written a file holds these, elsewhere what it held, and zeros in a gap.
pub get_elem?-write_at :
    (file : List ℕ) (offset : ℕ) (bytes : List ℕ) (j : ℕ)
    → 0 < length bytes
    → get_elem? (write_at file offset bytes) j ≡ (
        if ltb j offset
        then (if ltb j (length file) then get_elem? file j else some 0)
        else if ltb j (offset + length bytes)
        then get_elem? bytes (j - offset)
        else get_elem? file j)
unfolding write_at
get_elem?-write_at file offset [] j h = absurd (omega arith)
get_elem?-write_at file offset (b ∷ bytes) j h =
    get_elem?-parts head gap (b ∷ bytes) rest j
    ∙ rw s (
        ground (
          arith,
          length-take offset file,
          get_elem?-take offset file j,
          get_elem?-zeros (offset - length file) (j - length head),
          restored (offset + suc (length bytes)) j file,
        ))
  where
    head : List ℕ
    head = take offset file

    gap : List ℕ
    gap = zeros (offset - length file)

    rest : List ℕ
    rest = drop (offset + suc (length bytes)) file

    s : length head + length gap ≡ offset
    s = omega (arith, length-take offset file, length-zeros (offset - length file))

pub length-write_at :
    (file : List ℕ) (offset : ℕ) (bytes : List ℕ)
    → 0 < length bytes
    → length (write_at file offset bytes) ≡ max (length file) (offset + length bytes)
unfolding write_at
length-write_at file offset [] h = absurd (omega arith)
length-write_at file offset (b ∷ bytes) h =
    length-parts (take offset file) (zeros (offset - length file)) (b ∷ bytes)
      (drop (offset + suc (length bytes)) file)
    ∙ ground (
      arith,
      length-take offset file,
      length-zeros (offset - length file),
      length-drop (offset + suc (length bytes)) file,
    )

pub get_elem?-slice :
    (n offset : ℕ) (content : List ℕ) (j : ℕ)
    → offset ≤ j
    → j < offset + length (take n (drop offset content))
    → get_elem? (take n (drop offset content)) (j - offset) ≡ get_elem? content j
get_elem?-slice n offset content j h k =
    get_elem?-take n (drop offset content) (j - offset)
    ∙ ground (arith, restored offset j content h, length-take n (drop offset content))

-- The chunk of a content with this index.
abbrev pub chunk : List ℕ → ℕ → List ℕ
chunk content i = take chunk_size (drop (i * chunk_size) content)

-- Octets of the content, written at their place, keep each place that has the content.
pub write_at-keeps :
    (file content bytes : List ℕ) (offset j : ℕ)
    → 0 < length bytes
    → offset + length bytes ≤ length content
    → (offset ≤ j → j < offset + length bytes → get_elem? bytes (j - offset) ≡ get_elem? content j)
    → get_elem? file j ≡ get_elem? content j
    → get_elem? (write_at file offset bytes) j ≡ get_elem? content j
write_at-keeps file content bytes offset j h k body e =
    get_elem?-write_at file offset bytes j h
    ∙ ground (arith, body, e, get_elem?_out file j, get_elem?-eq-get_or content j 0)

-- And give it to the places written.
pub write_at-gets :
    (file content bytes : List ℕ) (offset j : ℕ)
    → offset ≤ j
    → j < offset + length bytes
    → get_elem? bytes (j - offset) ≡ get_elem? content j
    → get_elem? (write_at file offset bytes) j ≡ get_elem? content j
write_at-gets file content bytes offset j h k e =
    get_elem?-write_at file offset bytes j (omega arith) ∙ ground (arith, e)
