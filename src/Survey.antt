-- ===== src/Survey.antt =====
-- server/src/auth_handlers.rs and server/src/survey_middleware.rs: the sessions of surveyors, who log
-- in with a magic key. `magic_key_auth` makes the session, whose text is its cookie;
-- `validate_survey_session` reads it back. Both files have the same helpers. The uuid is an argument.
pub mod Texts
pub mod Splitting
pub mod Decimals
pub mod Sessions
pub mod Cookies
pub mod Gate
pub mod Admission
mod Tests
use netpoke.Prelude.{
  ℕ, ◌-◌, Bool, true, false, not, ◌||◌, Option, none, some, List, [], ◌∷◌, ◌++◌, ltb, ◌==◌,
  if◌then◌else◌, length, get_or, take, drop,
}
use netpoke.Survey.Texts.{
  Text, split, join, replace, same, starts_with, contains, trim, decimal, parse_u64,
}

pub record MagicKeyConfig : Type 0 where
  pub enabled : Bool
  pub magic_keys : List Text
  pub survey_cookie_name : Text
  pub survey_timeout_seconds : ℕ

-- "survey_"
abbrev pub prefix : Text
prefix = b's' ∷ b'u' ∷ b'r' ∷ b'v' ∷ b'e' ∷ b'y' ∷ b'_' ∷ []

-- `format!("survey_{}_{}_{}", magic_key.replace("-", "_"), timestamp, uuid)`
unfoldable pub survey_session_id : Text → ℕ → Text → Text
survey_session_id magic_key timestamp uuid =
    prefix ++ (replace b'-' b'_' magic_key ++ (b'_' ∷ (decimal timestamp ++ (b'_' ∷ uuid))))

-- The answer to a login: no such page, a wrong key, or a cookie with its age.
pub data MagicKeyAnswer : Type 0 where
  not_found unauthorized : MagicKeyAnswer
  set_cookie : Text → Text → ℕ → MagicKeyAnswer

abbrev pub is_empty : List Text → Bool
is_empty [] = true
is_empty (t ∷ ts) = false

unfoldable pub magic_key_auth : MagicKeyConfig → ℕ → Text → Text → MagicKeyAnswer
magic_key_auth config now uuid magic_key =
    if not config.enabled || is_empty config.magic_keys
    then not_found
    else if not (contains config.magic_keys magic_key)
    then unauthorized
    else set_cookie config.survey_cookie_name (survey_session_id magic_key now uuid)
        config.survey_timeout_seconds

-- `&parts[1..parts.len() - 2]`
abbrev pub key_parts : List Text → List Text
key_parts parts = take (length parts - 2 - 1) (drop 1 parts)

abbrev pub is_fresh : MagicKeyConfig → ℕ → Option ℕ → Bool
is_fresh config now none = false
is_fresh config now (some timestamp) = not (ltb config.survey_timeout_seconds (now - timestamp))

unfoldable pub validate_survey_session : MagicKeyConfig → ℕ → Text → Bool
validate_survey_session config now session_id =
    let parts = split b'_' session_id in
    if not (starts_with prefix session_id)
    then false
    else if ltb (length parts) 4
    then false
    else if not (is_fresh config now (parse_u64 (get_or parts (length parts - 2) [])))
    then false
    else contains config.magic_keys (join (b'-' ∷ []) (key_parts parts))

unfoldable pub extract_magic_key_from_session : Text → Option Text
extract_magic_key_from_session session_id =
    let parts = split b'_' session_id in
    if not (starts_with prefix session_id)
    then none
    else if ltb (length parts) 4
    then none
    else elim (key_parts parts) [ [] ↦ none | part ∷ rest ↦ some (join (b'-' ∷ []) (part ∷ rest)) ]

-- The values of all `cookie` headers in one text, from what was collected so far.
unfoldable pub collect_from : Text → List Text → Text
collect_from acc [] = acc
collect_from [] (s ∷ headers) = collect_from s headers
collect_from (a ∷ acc) (s ∷ headers) = collect_from ((a ∷ acc) ++ (b';' ∷ 32 ∷ s)) headers

unfoldable pub collect_all_cookies : List Text → Text
collect_all_cookies headers = collect_from [] headers

-- The test on one cookie: a name and a value.
abbrev pub value_of : Text → List Text → Option Text
value_of name [] = none
value_of name (n ∷ []) = none
value_of name (n ∷ v ∷ []) = if same n name then some v else none
value_of name (n ∷ v ∷ w ∷ ws) = none

-- `find_map` over the cookies.
unfoldable pub find_value : Text → List Text → Option Text
find_value name [] = none
find_value name (cookie ∷ cookies) = elim (value_of name (split b'=' (trim cookie))) [
  | none ↦ find_value name cookies
  | some value ↦ some value
]

unfoldable pub extract_session_id : Text → Text → Option Text
extract_session_id cookie_str cookie_name = find_value cookie_name (split b';' cookie_str)
