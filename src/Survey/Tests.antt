-- ===== src/Survey/Tests.antt =====
-- Examples of the Survey modules: a surveyor with the key "DEMO-1".
use netpoke.Prelude.{
  ◌≡◌, ◌-◌, refl, true, false, none, some, List, [], ◌∷◌, All, arith, ltb, if◌then◌else◌,
}
use netpoke.Survey.Texts.{
  Text, split, join, same, starts_with, contains, replace, digits, decimal, parse_digits, parse_u64,
}
use netpoke.Survey.{
  MagicKeyConfig, MagicKeyAnswer, magic_key_auth, survey_session_id, validate_survey_session,
}
use netpoke.Survey.Sessions.{validate_survey_session-survey_session_id}
use netpoke.Survey.Cookies.{Cookie, IsPlain, IsCookie, cookie_header, first_value}
use netpoke.Survey.Gate.{
  AuthConfig, Request, SessionData, Verdict, plain_login, is_expired, validate_session,
  is_user_allowed, extract_session_from_jar, require_auth, require_auth_or_survey_session,
}
use netpoke.Survey.Admission.{require_auth_or_survey_session-magic_key_auth}

abbrev key : Text
key = b'D' ∷ b'E' ∷ b'M' ∷ b'O' ∷ b'-' ∷ b'1' ∷ []

abbrev underscored : Text
underscored = b'D' ∷ b'_' ∷ b'1' ∷ []

abbrev uuid : Text
uuid = b'7' ∷ b'f' ∷ b'-' ∷ b'0' ∷ []

-- "sid"
abbrev name : Text
name = b's' ∷ b'i' ∷ b'd' ∷ []

abbrev keys : MagicKeyConfig
keys = record {
  enabled = true;
  magic_keys = key ∷ underscored ∷ [];
  survey_cookie_name = name;
  survey_timeout_seconds = 28800;
}

abbrev config : AuthConfig
config = record {
  enable_auth = true;
  session = record { cookie_name = b'a' ∷ []; timeout_seconds = 86400 };
  allowed_users = (b'u' ∷ []) ∷ [];
  magic_keys = keys;
}

abbrev user : SessionData
user = record {
  auth_provider = plain_login;
  user_id = b'u' ∷ [];
  handle = b'u' ∷ [];
  display_name = none;
  groups = [];
  created_at = 1000;
}

abbrev signed_in : Request
signed_in = record { headers = []; jar = some (λ name. some user) }

abbrev session : Text
session = survey_session_id key 1000 uuid

-- Another cookie, and that of the session.
abbrev cookies : List Cookie
cookies = (b'x' ∷ [], b'1' ∷ []) ∷ (name, session) ∷ []

session-IsPlain : All IsPlain session
unfolding survey_session_id replace decimal digits
session-IsPlain = ground arith

cookies-IsCookie : All IsCookie cookies
cookies-IsCookie = ((ground arith, ground arith), ((ground arith, session-IsPlain), tt))

accepted_session : validate_survey_session keys 2000 session ≡ true
unfolding validate_survey_session starts_with survey_session_id split replace decimal digits
    parse_u64 parse_digits contains same join
accepted_session = refl

-- A key with `_` logs in, and its session is refused.
refused_session :
    validate_survey_session keys 2000 (survey_session_id underscored 1000 uuid) ≡ false
unfolding validate_survey_session starts_with survey_session_id split replace decimal digits
    parse_u64 parse_digits contains same join
refused_session = refl

validate_survey_session-survey_session_id_example :
    validate_survey_session keys 2000 (survey_session_id key 1000 uuid)
    ≡ (if ltb 28800 (2000 - 1000) then false else contains keys.magic_keys (replace b'_' b'-' key))
validate_survey_session-survey_session_id_example =
    validate_survey_session-survey_session_id keys 2000 1000 key uuid (ground arith) (omega arith)

signed_in-runs : require_auth config 2000 signed_in ≡ Verdict.run (some user)
unfolding require_auth is_user_allowed validate_session is_expired extract_session_from_jar contains
    same
signed_in-runs = refl

login : magic_key_auth keys 1000 uuid key ≡ MagicKeyAnswer.set_cookie name session 28800
unfolding magic_key_auth contains same
login = refl

carried : first_value name cookies ≡ some session
unfolding first_value same
carried = refl

require_auth_or_survey_session-magic_key_auth_example :
    require_auth_or_survey_session config 2000
      (record { headers = cookie_header cookies ∷ []; jar = none })
    ≡ Verdict.run none
require_auth_or_survey_session-magic_key_auth_example =
    require_auth_or_survey_session-magic_key_auth config 1000 2000 28800 uuid key name session
      cookies none login (ground arith) (ground arith) (omega arith) cookies-IsCookie carried
      (omega arith)
