-- ===== src/Survey/Sessions.antt =====
-- The sessions that a login makes, read back by `validate_survey_session` and by
-- `extract_magic_key_from_session`.
use netpoke.Prelude.{
  ℕ, suc, ◌+◌, ◌-◌, ◌^◌, ◌≢◌, ◌≤◌, ◌<◌, ◌≡◌, refl, sym, ap, ◌∙◌, true, false, some, List, [], ◌∷◌,
  ◌++◌, arith, ltb, if◌then◌else◌, All-map, length, length-append, get_or, take, take-append_length,
}
use netpoke.Survey.Texts.{Text, split, join, replace, starts_with, contains, decimal}
use netpoke.Survey.Splitting.{
  Lacks, split_whole, split_cons, split-append, join-split-replace, replace-replace,
  replace_lacking,
}
use netpoke.Survey.Decimals.{IsDigit, decimal-IsDigit, parse_u64-decimal}
use netpoke.Survey.{
  MagicKeyConfig, prefix, survey_session_id, key_parts, validate_survey_session,
  extract_magic_key_from_session,
}

abbrev survey : Text
survey = b's' ∷ b'u' ∷ b'r' ∷ b'v' ∷ b'e' ∷ b'y' ∷ []

-- The parts of a key in a session.
abbrev stored : Text → List Text
stored key = split b'_' (replace b'-' b'_' key)

-- The parts of a session.
abbrev session_parts : Text → ℕ → Text → List Text
session_parts key timestamp uuid = survey ∷ (stored key ++ (decimal timestamp ∷ uuid ∷ []))

decimal-Lacks : (n : ℕ) → Lacks b'_' (decimal n)
decimal-Lacks n =
    All-map IsDigit (λ x. x ≢ b'_') (decimal n) (λ x h. omega (arith, h.0, h.1)) (decimal-IsDigit n)

split-survey : (rest : Text) → split b'_' (prefix ++ rest) ≡ survey ∷ split b'_' rest
unfolding split
split-survey rest = split-append b'_' survey rest

split-survey_session_id :
    (key : Text) (timestamp : ℕ) (uuid : Text)
    → Lacks b'_' uuid
    → split b'_' (survey_session_id key timestamp uuid) ≡ session_parts key timestamp uuid
unfolding survey_session_id
split-survey_session_id key timestamp uuid l =
    split-survey (replace b'-' b'_' key ++ (b'_' ∷ (decimal timestamp ++ (b'_' ∷ uuid))))
    ∙ ap (◌∷◌ survey) (
        rw (split-append b'_' (replace b'-' b'_' key) (decimal timestamp ++ (b'_' ∷ uuid))) (
          rw (split-append b'_' (decimal timestamp) uuid) (
            rw (split_whole b'_' (decimal timestamp) (decimal-Lacks timestamp))
              (rw (split_whole b'_' uuid l) refl))))

prefix-starts : (rest : Text) → starts_with prefix (prefix ++ rest) ≡ true
unfolding starts_with
prefix-starts rest = refl

survey_session_id-starts :
    (key : Text) (timestamp : ℕ) (uuid : Text)
    → starts_with prefix (survey_session_id key timestamp uuid) ≡ true
unfolding survey_session_id
survey_session_id-starts key timestamp uuid =
    prefix-starts (replace b'-' b'_' key ++ (b'_' ∷ (decimal timestamp ++ (b'_' ∷ uuid))))

get_or-append_length {ℓ} :
    {A : Type ℓ} (xs ys : List A) (i : ℕ) (d : A)
    → get_or (xs ++ ys) (length xs + i) d ≡ get_or ys i d
get_or-append_length [] ys i d = ap (λ k. get_or ys k d) (omega arith)
get_or-append_length (x ∷ xs) ys i d =
    ap (λ k. get_or (x ∷ xs ++ ys) k d) shift ∙ get_or-append_length xs ys i d
  where
    shift : suc (length xs) + i ≡ suc (length xs + i)
    shift = omega arith

length-session_parts :
    (key : Text) (timestamp : ℕ) (uuid : Text)
    → length (session_parts key timestamp uuid) ≡ 3 + length (stored key)
length-session_parts key timestamp uuid =
    omega (arith, length-append (stored key) (decimal timestamp ∷ uuid ∷ []))

stored-ne-nil : (key : Text) → 1 ≤ length (stored key)
stored-ne-nil key =
    let (part, parts, e) = split_cons b'_' (replace b'-' b'_' key) in rw e (omega arith)

key_parts-session_parts :
    (key : Text) (timestamp : ℕ) (uuid : Text)
    → key_parts (session_parts key timestamp uuid) ≡ stored key
key_parts-session_parts key timestamp uuid =
    ap (λ n. take n (stored key ++ (decimal timestamp ∷ uuid ∷ [])))
      (omega (arith, length-session_parts key timestamp uuid))
    ∙ take-append_length (stored key) (decimal timestamp ∷ uuid ∷ [])

timestamp-session_parts :
    (key : Text) (timestamp : ℕ) (uuid : Text)
    → get_or (session_parts key timestamp uuid) (length (session_parts key timestamp uuid) - 2) []
      ≡ decimal timestamp
timestamp-session_parts key timestamp uuid =
    ap (λ n. get_or (session_parts key timestamp uuid) n []) place
    ∙ get_or-append_length (stored key) (decimal timestamp ∷ uuid ∷ []) 0 []
  where
    place : length (session_parts key timestamp uuid) - 2 ≡ suc (length (stored key) + 0)
    place = omega (arith, length-session_parts key timestamp uuid)

-- The key that a session gives: the one logged in with, its `_` read as `-`.
join-stored : (key : Text) → join (b'-' ∷ []) (stored key) ≡ replace b'_' b'-' key
join-stored key =
    join-split-replace b'_' b'-' (replace b'-' b'_' key) ∙ replace-replace b'-' b'_' key

-- The session of any key, its timestamp a `u64` and its uuid without `_`, is accepted at `now`
-- if and only if it is at most the timeout old and the key, with every `_` of it a `-`, is configured.
pub validate_survey_session-survey_session_id :
    (config : MagicKeyConfig) (now timestamp : ℕ) (key uuid : Text)
    → Lacks b'_' uuid
    → timestamp < 2 ^ 64
    → validate_survey_session config now (survey_session_id key timestamp uuid) ≡ (
        if ltb config.survey_timeout_seconds (now - timestamp)
        then false
        else contains config.magic_keys (replace b'_' b'-' key))
unfolding validate_survey_session
validate_survey_session-survey_session_id config now timestamp key uuid l b =
    rw (survey_session_id-starts key timestamp uuid) (
      rw (split-survey_session_id key timestamp uuid l) (
        rw (timestamp-session_parts key timestamp uuid) (
          rw (parse_u64-decimal timestamp b) (
            rw (key_parts-session_parts key timestamp uuid) (
              rw (join-stored key)
                (ground (arith, length-session_parts key timestamp uuid, stored-ne-nil key)))))))

-- The key that the status page shows for a session, its uuid without `_`: the key it was made for, if that has no `_`.
pub extract_magic_key_from_session-survey_session_id :
    (timestamp : ℕ) (key uuid : Text)
    → Lacks b'_' uuid
    → Lacks b'_' key
    → extract_magic_key_from_session (survey_session_id key timestamp uuid) ≡ some key
unfolding extract_magic_key_from_session
extract_magic_key_from_session-survey_session_id timestamp key uuid l k =
    let (part, parts, e) = split_cons b'_' (replace b'-' b'_' key) in
    let joined : join (b'-' ∷ []) (part ∷ parts) ≡ key =
      ap (join (b'-' ∷ [])) (sym e) ∙ join-stored key ∙ replace_lacking b'_' b'-' key k in
    rw (survey_session_id-starts key timestamp uuid) (
      rw (split-survey_session_id key timestamp uuid l) (
        rw (key_parts-session_parts key timestamp uuid)
          (rw e (rw joined (ground (arith, length-append parts (decimal timestamp ∷ uuid ∷ [])))))))
