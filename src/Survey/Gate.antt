-- ===== src/Survey/Gate.antt =====
-- auth/src/session.rs, auth/src/service.rs, auth/src/middleware.rs, server/src/survey_middleware.rs and
-- the status page of server/src/auth_handlers.rs: who may pass. The private cookie jar is an
-- argument: what `PrivateCookieJar::get` and `serde_json::from_str` give for a cookie's name.
-- The zeros of the page's statistics are left out. Seconds are `u64`, and a difference below 0 wraps.
use netpoke.Prelude.{
  ℕ, ◌+◌, ◌-◌, ◌%◌, ◌^◌, Bool, true, false, not, ◌||◌, ◌&&◌, Option, none, some, List, [], ◌∷◌, ltb,
  if◌then◌else◌,
}
use netpoke.Survey.Texts.{Text, contains}
use netpoke.Survey.{
  MagicKeyConfig, is_empty, validate_survey_session, extract_magic_key_from_session,
  collect_all_cookies, extract_session_id,
}

pub data AuthProvider : Type 0 where
  bluesky git_hub google linked_in plain_login : AuthProvider

pub record SessionData : Type 0 where
  pub auth_provider : AuthProvider
  pub user_id : Text
  pub handle : Text
  pub display_name : Option Text
  pub groups : List Text
  pub created_at : ℕ

pub record SessionConfig : Type 0 where
  pub cookie_name : Text
  pub timeout_seconds : ℕ

-- The fields of `AuthConfig` that the gates read.
pub record AuthConfig : Type 0 where
  pub enable_auth : Bool
  pub session : SessionConfig
  pub allowed_users : List Text
  pub magic_keys : MagicKeyConfig

-- The `cookie` headers, and the private cookies unless the jar cannot be read.
pub record Request : Type 0 where
  pub headers : List Text
  pub jar : Option (Text → Option SessionData)

-- The handler runs, with the session that it is given, or the answer is a redirect or a refusal.
pub data Verdict : Type 0 where
  run : Option SessionData → Verdict
  redirect forbidden : Text → Verdict

unfoldable pub is_expired : SessionData → ℕ → ℕ → Bool
is_expired session timeout now = ltb timeout ((now + 2 ^ 64 - session.created_at) % 2 ^ 64)

unfoldable pub validate_session : AuthConfig → ℕ → SessionData → Bool
validate_session config now session = not (is_expired session config.session.timeout_seconds now)

unfoldable pub is_user_allowed : AuthConfig → Text → Bool
is_user_allowed config handle =
    is_empty config.allowed_users || contains config.allowed_users handle

-- The session of a request, if it has one that is valid.
abbrev pub valid_session : AuthConfig → ℕ → Option SessionData → Option SessionData
valid_session config now none = none
valid_session config now (some session) =
    if validate_session config now session then some session else none

-- `extract_session_from_jar`
unfoldable pub extract_session_from_jar :
    Text → Option (Text → Option SessionData) → Option SessionData
extract_session_from_jar name none = none
extract_session_from_jar name (some jar) = jar name

-- "/auth/login"
abbrev pub login : Text
login = b'/' ∷ b'a' ∷ b'u' ∷ b't' ∷ b'h' ∷ b'/' ∷ b'l' ∷ b'o' ∷ b'g' ∷ b'i' ∷ b'n' ∷ []

-- The answer for the session that is valid, if there is one.
abbrev pub enter : AuthConfig → Option SessionData → Verdict
enter config none = redirect login
enter config (some session) =
    if not (is_user_allowed config session.handle)
    then forbidden session.handle
    else run (some session)

unfoldable pub require_auth : AuthConfig → ℕ → Request → Verdict
require_auth config now request =
    if not config.enable_auth
    then run none
    else enter config
        (valid_session config now (extract_session_from_jar config.session.cookie_name request.jar))

unfoldable pub optional_auth : AuthConfig → ℕ → Request → Verdict
optional_auth config now request =
    if not config.enable_auth
    then run none
    else run
        (valid_session config now (extract_session_from_jar config.session.cookie_name request.jar))

-- The valid session of an allowed user.
abbrev pub allowed : AuthConfig → Option SessionData → Option SessionData
allowed config none = none
allowed config (some session) = if is_user_allowed config session.handle then some session else none

abbrev pub regular_session : AuthConfig → ℕ → Request → Option SessionData
regular_session config now request =
    allowed config
      (valid_session config now (extract_session_from_jar config.session.cookie_name request.jar))

-- The survey session among the cookies, if it is valid.
abbrev pub accepted : AuthConfig → ℕ → Option Text → Option Text
accepted config now none = none
accepted config now (some id) =
    if validate_survey_session config.magic_keys now id then some id else none

abbrev pub survey_session : AuthConfig → ℕ → List Text → Option Text
survey_session config now headers =
    if config.magic_keys.enabled
    then accepted config now
        (extract_session_id (collect_all_cookies headers) config.magic_keys.survey_cookie_name)
    else none

-- Either session passes.
abbrev pub admit : Option SessionData → Option Text → Verdict
admit (some session) survey = run none
admit none (some id) = run none
admit none none = redirect (b'/' ∷ [])

unfoldable pub require_auth_or_survey_session : AuthConfig → ℕ → Request → Verdict
require_auth_or_survey_session config now request =
    if not config.enable_auth
    then run none
    else admit (regular_session config now request) (survey_session config now request.headers)

pub data AuthType : Type 0 where
  full magic_key : AuthType

pub record AuthStatusResponse : Type 0 where
  pub authenticated : Bool
  pub auth_type : Option AuthType
  pub user : Option Text
  pub key : Option Text

abbrev pub anonymous : AuthStatusResponse
anonymous = record { authenticated = false; auth_type = none; user = none; key = none }

-- The answer of the status page for a regular session, if it is valid.
abbrev pub full_status : AuthConfig → ℕ → Option SessionData → Option AuthStatusResponse
full_status config now none = none
full_status config now (some session) =
    if validate_session config now session && is_user_allowed config session.handle
    then some (record {
      authenticated = true;
      auth_type = some full;
      user = some session.handle;
      key = none;
    })
    else none

-- Its answer for a survey session, if that one is valid.
abbrev pub magic_key_status : AuthConfig → ℕ → Option Text → AuthStatusResponse
magic_key_status config now none = anonymous
magic_key_status config now (some id) =
    if validate_survey_session config.magic_keys now id
    then record {
      authenticated = true;
      auth_type = some magic_key;
      user = none;
      key = extract_magic_key_from_session id;
    }
    else anonymous

unfoldable pub auth_status : AuthConfig → ℕ → Request → AuthStatusResponse
auth_status config now request =
    if not config.enable_auth
    then anonymous
    else elim (full_status config now
        (extract_session_from_jar config.session.cookie_name request.jar)) [
          | some response ↦ response
          | none ↦
              if config.magic_keys.enabled
              then magic_key_status config now (
                  extract_session_id (collect_all_cookies request.headers)
                    config.magic_keys.survey_cookie_name)
              else anonymous
        ]
