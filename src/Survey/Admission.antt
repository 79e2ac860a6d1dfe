-- ===== src/Survey/Admission.antt =====
-- The login and the gates together, on server/src/auth_handlers.rs, server/src/survey_middleware.rs
-- and auth/src/middleware.rs.
use netpoke.Prelude.{
  ℕ, ◌+◌, ◌-◌, ◌^◌, ◌≤◌, ◌<◌, ◌≡◌, refl, sym, ap, ◌∙◌, Bool, true, false, not, Option, none, some,
  List, [], ◌∷◌, arith, ltb, if◌then◌else◌, All,
}
use netpoke.Survey.Texts.{Text, contains}
use netpoke.Survey.Splitting.{Lacks, replace_lacking}
use netpoke.Survey.Cookies.{
  Cookie, IsCookie, cookie_header, first_value, extract_session_id-cookie_header,
}
use netpoke.Survey.Sessions.{validate_survey_session-survey_session_id}
use netpoke.Survey.{
  MagicKeyConfig, set_cookie, magic_key_auth, survey_session_id, validate_survey_session,
  collect_from, collect_all_cookies, extract_session_id,
}
use netpoke.Survey.Gate.{
  AuthConfig, Request, Verdict, run, enter, allowed, admit, require_auth, optional_auth,
  require_auth_or_survey_session, valid_session, regular_session, survey_session,
  extract_session_from_jar, SessionData,
}

enter-run :
    (config : AuthConfig) (valid given : Option SessionData) (survey : Option Text)
    → enter config valid ≡ run given
    → (run valid ≡ run given) × (admit (allowed config valid) survey ≡ run none)
enter-run config none given survey h = cc
enter-run config (some session) given survey h = ground (arith, h)

-- A request that `require_auth` lets pass is given the same session by `optional_auth`, and passes the
-- gate of the test page, which gives it none.
pub require_auth_lem :
    (config : AuthConfig) (now : ℕ) (request : Request) (given : Option SessionData)
    → require_auth config now request ≡ run given
    → (optional_auth config now request ≡ run given)
      × (require_auth_or_survey_session config now request ≡ run none)
unfolding require_auth optional_auth require_auth_or_survey_session
require_auth_lem config now request given h = by_setting config.enable_auth h
  where
    by_setting :
        (on : Bool)
        → (if not on
            then run none
            else enter config (
                valid_session config now
                  (extract_session_from_jar config.session.cookie_name request.jar)))
          ≡ run given
        → ((if not on
              then run none
              else run (
                  valid_session config now
                    (extract_session_from_jar config.session.cookie_name request.jar)))
            ≡ run given)
          × ((if not on
                then run none
                else admit
                    (regular_session config now request)
                    (survey_session config now request.headers))
              ≡ run none)
    by_setting false h = (h, refl)
    by_setting true h = enter-run config _ given (survey_session config now request.headers) h

admit-survey :
    (regular : Option SessionData) (survey : Option Text) (id : Text)
    → survey ≡ some id
    → admit regular survey ≡ run none
admit-survey (some session) survey id h = refl
admit-survey none (some i) id h = refl
admit-survey none none id h = cc

-- A login that sets a cookie was made with a configured key, and what it sets.
magic_key_auth-set_cookie :
    (config : MagicKeyConfig) (now age : ℕ) (uuid key name session : Text)
    → magic_key_auth config now uuid key ≡ set_cookie name session age
    → (config.enabled ≡ true)
      × (contains config.magic_keys key ≡ true)
      × (name ≡ config.survey_cookie_name)
      × (session ≡ survey_session_id key now uuid)
      × (age ≡ config.survey_timeout_seconds)
unfolding magic_key_auth
magic_key_auth-set_cookie config now age uuid key name session h = ground arith

-- A surveyor who logs in with a key without `_`, and sends the cookie of the answer back among plain cookies, as the
-- first of its name, within the age that it was set with, passes the gate of the test page, whatever the private
-- cookies are. (The uuid has no `_`, and the time of the login is a `u64`.)
pub require_auth_or_survey_session-magic_key_auth :
    (config : AuthConfig) (now later age : ℕ) (uuid key name session : Text) (cookies : List Cookie)
    (jar : Option (Text → Option SessionData))
    → magic_key_auth config.magic_keys now uuid key ≡ set_cookie name session age
    → Lacks b'_' uuid
    → Lacks b'_' key
    → now < 2 ^ 64
    → All IsCookie cookies
    → first_value name cookies ≡ some session
    → later ≤ now + age
    → require_auth_or_survey_session config later
        (record { headers = cookie_header cookies ∷ []; jar = jar })
      ≡ run none
unfolding require_auth_or_survey_session collect_all_cookies collect_from
require_auth_or_survey_session-magic_key_auth config now later age uuid key name session cookies jar
      h u k b c f l =
    let (on, held, n, s, a) =
      magic_key_auth-set_cookie config.magic_keys now age uuid key name session h in
    let found : extract_session_id (cookie_header cookies) config.magic_keys.survey_cookie_name
        ≡ some (survey_session_id key now uuid) =
      extract_session_id-cookie_header cookies config.magic_keys.survey_cookie_name c
      ∙ ap (λ t. first_value t cookies) (sym n)
      ∙ f
      ∙ ap some s in
    let fresh : ltb config.magic_keys.survey_timeout_seconds (later - now) ≡ false =
      ground (arith, l, a) in
    let valid : validate_survey_session config.magic_keys later (survey_session_id key now uuid)
        ≡ true =
      validate_survey_session-survey_session_id config.magic_keys later now key uuid u b
      ∙ rw (replace_lacking b'_' b'-' key k) (rw fresh held) in
    let survey : survey_session config later (cookie_header cookies ∷ [])
        ≡ some (survey_session_id key now uuid) =
      simp on (simp found (simp valid refl)) in
    by_setting config.enable_auth (admit-survey _ _ (survey_session_id key now uuid) survey)
  where
    by_setting :
        {v : Verdict} (on : Bool) → v ≡ run none → (if not on then run none else v) ≡ run none
    by_setting false h = refl
    by_setting true h = h
