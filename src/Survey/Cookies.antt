-- ===== src/Survey/Cookies.antt =====
-- The cookies that a browser sends back (RFC 6265: `name=value` pairs behind `; `), and
-- `extract_session_id` on them.
use netpoke.Prelude.{
  ℕ, ◌≢◌, ◌≡◌, refl, ap, ◌∙◌, Option, none, some, List, [], ◌∷◌, ◌++◌, arith, if◌then◌else◌, All,
  All-map, All-append,
}
use netpoke.Survey.Texts.{Text, split, same, is_space, trim_start, trim_end, trim}
use netpoke.Survey.Splitting.{Lacks, split_whole, split_cons, split-append}
use netpoke.Survey.{value_of, find_value, extract_session_id}

-- A character of a cookie's name or value.
abbrev pub IsPlain : ℕ → Type 0
IsPlain c = (c ≢ b';') × (c ≢ b'=') × (c ≢ 32) × (c ≢ 9)

abbrev pub Cookie : Type 0
Cookie = Text × Text

abbrev pub IsCookie : Cookie → Type 0
IsCookie c = All IsPlain c.0 × All IsPlain c.1

-- "name=value"
abbrev pub pair : Cookie → Text
pair c = c.0 ++ (b'=' ∷ c.1)

-- The header that carries the cookies.
unfoldable pub cookie_header : List Cookie → Text
cookie_header [] = []
cookie_header (c ∷ []) = pair c
cookie_header (c ∷ d ∷ cs) = pair c ++ (b';' ∷ 32 ∷ cookie_header (d ∷ cs))

-- The value of the first cookie of a name.
unfoldable pub first_value : Text → List Cookie → Option Text
first_value name [] = none
first_value name (c ∷ cs) = if same c.0 name then some c.1 else first_value name cs

abbrev IsVisible : ℕ → Type 0
IsVisible c = (c ≢ 32) × (c ≢ 9)

trim_start_visible : (text : Text) → All IsVisible text → trim_start text ≡ text
unfolding trim_start
trim_start_visible [] h = refl
trim_start_visible (x ∷ xs) h = ground (arith, h.0.0, h.0.1)

trim_end_visible : (text : Text) → All IsVisible text → trim_end text ≡ text
unfolding trim_end
trim_end_visible [] h = refl
trim_end_visible (x ∷ xs) h = rw (trim_end_visible xs h.1) (kept xs)
  where
    kept :
        (ys : Text)
        → (elim ys as (λ _. Text) [ [] ↦ if is_space x then [] else x ∷ [] | y ∷ zs ↦ x ∷ y ∷ zs ])
          ≡ x ∷ ys
    kept [] = ground (arith, h.0.0, h.0.1)
    kept (y ∷ ys) = refl

trim_visible : (text : Text) → All IsVisible text → trim text ≡ text
trim_visible text h = rw (trim_start_visible text h) (trim_end_visible text h)

pair-IsVisible : (c : Cookie) → IsCookie c → All IsVisible (pair c)
pair-IsVisible c h =
    All-append IsVisible c.0 (b'=' ∷ c.1) (All-map IsPlain IsVisible c.0 (λ x p. (p.2, p.3)) h.0)
      ((omega arith, omega arith), All-map IsPlain IsVisible c.1 (λ x p. (p.2, p.3)) h.1)

pair-Lacks : (c : Cookie) → IsCookie c → Lacks b';' (pair c)
pair-Lacks c h =
    All-append (λ x. x ≢ b';') c.0 (b'=' ∷ c.1)
      (All-map IsPlain (λ x. x ≢ b';') c.0 (λ x p. p.0) h.0)
      (omega arith, All-map IsPlain (λ x. x ≢ b';') c.1 (λ x p. p.0) h.1)

split-pair : (c : Cookie) → IsCookie c → split b'=' (pair c) ≡ c.0 ∷ c.1 ∷ []
split-pair c h = rw (split-append b'=' c.0 c.1) (
    rw (split_whole b'=' c.0 (All-map IsPlain (λ x. x ≢ b'=') c.0 (λ x p. p.1) h.0))
      (rw (split_whole b'=' c.1 (All-map IsPlain (λ x. x ≢ b'=') c.1 (λ x p. p.1) h.1)) refl))

-- A space at the front of the cookies changes nothing.
find_value-space :
    (name text : Text)
    → find_value name (split b';' (32 ∷ text)) ≡ find_value name (split b';' text)
unfolding split find_value trim_start
find_value-space name text = let (part, parts, e) = split_cons b';' text in rw e refl

abbrev or_next : Text → List Text → Option Text → Option Text
or_next name rest none = find_value name rest
or_next name rest (some value) = some value

find_value-pair :
    (name : Text) (c : Cookie) (rest : List Text)
    → IsCookie c
    → find_value name (pair c ∷ rest) ≡ (if same c.0 name then some c.1 else find_value name rest)
unfolding find_value
find_value-pair name c rest h =
    ap (λ t. or_next name rest (value_of name (split b'=' t)))
      (trim_visible (pair c) (pair-IsVisible c h))
    ∙ rw (split-pair c h) (ground arith)

find_value-nothing : (name : Text) → find_value name (split b';' []) ≡ none
unfolding find_value split trim_start trim_end
find_value-nothing name = refl

-- Reading a cookie out of the header that carries cookies without space, `;` and `=` in their names and values
-- gives the value of the first one of that name, and nothing if there is none.
pub extract_session_id-cookie_header :
    (cookies : List Cookie) (name : Text)
    → All IsCookie cookies
    → extract_session_id (cookie_header cookies) name ≡ first_value name cookies
unfolding extract_session_id cookie_header first_value find_value
extract_session_id-cookie_header [] name h = find_value-nothing name
extract_session_id-cookie_header (c ∷ []) name h =
    rw (split_whole b';' (pair c) (pair-Lacks c h.0)) (find_value-pair name c [] h.0 ∙ refl)
extract_session_id-cookie_header (c ∷ d ∷ cs) name h =
    rw (split-append b';' (pair c) (32 ∷ cookie_header (d ∷ cs))) (
      rw (split_whole b';' (pair c) (pair-Lacks c h.0)) (
        rw (find_value-pair name c (split b';' (32 ∷ cookie_header (d ∷ cs))) h.0) (
          rw (find_value-space name (cookie_header (d ∷ cs)))
            (rw (extract_session_id-cookie_header (d ∷ cs) name h.1) refl))))
