-- ===== src/Keylog.antt =====
-- server/src/dtls_keylog.rs: `KeylogStorage` and `DtlsKeylogService`, which keep the DTLS keys of the
-- latest survey sessions. The time of an entry is an argument; the printing of a key file is left
-- out.
pub mod Storage
pub mod Eviction
mod Tests
use netpoke.Prelude.{
  ℕ, ◌+◌, Bool, true, false, not, Option, none, some, List, [], ◌∷◌, ◌++◌, String, String-discrete,
  leb, if◌then◌else◌, ite, length, Map, lookup, insert, remove,
}

pub record DtlsKeylogEntry : Type 0 where
  pub client_random : List ℕ
  pub master_secret : List ℕ
  pub timestamp : ℕ

pub record DtlsKeylogConfig : Type 0 where
  pub max_sessions : ℕ
  pub enabled : Bool

pub record KeylogStorage : Type 0 where
  pub sessions : Map String (List DtlsKeylogEntry)
  pub session_order : List String
  pub config : DtlsKeylogConfig

pub record KeylogStats : Type 0 where
  pub sessions_stored : ℕ
  pub total_entries : ℕ
  pub max_sessions : ℕ

unfoldable pub new : DtlsKeylogConfig → KeylogStorage
new config = record { sessions = []; session_order = []; config = config }

-- `survey_session_id.is_empty()`
abbrev pub is_empty : String → Bool
is_empty id = ite (String-discrete id "") true false

-- `sessions.contains_key(id)`
abbrev pub contains_key : String → Map String (List DtlsKeylogEntry) → Bool
contains_key id m = elim (lookup String-discrete id m) [ none ↦ false | some es ↦ true ]

-- The loop that evicts the oldest session while the limit is reached.
unfoldable pub evict :
    ℕ
    → Map String (List DtlsKeylogEntry)
    → List String
    → Map String (List DtlsKeylogEntry) × List String
evict max_sessions sessions [] = (sessions, [])
evict max_sessions sessions (oldest ∷ order) =
    let rest = evict max_sessions (remove String-discrete oldest sessions) order in
    if leb max_sessions (length sessions) then rest else (sessions, oldest ∷ order)

-- `entry(id).or_insert_with(Vec::new)`
abbrev pub or_new : Option (List DtlsKeylogEntry) → List DtlsKeylogEntry
or_new none = []
or_new (some es) = es

-- `sessions.entry(id).or_insert_with(Vec::new).push(entry)`
abbrev pub push :
    String → DtlsKeylogEntry → Map String (List DtlsKeylogEntry) → Map String (List DtlsKeylogEntry)
push id entry m = insert String-discrete id (or_new (lookup String-discrete id m) ++ (entry ∷ [])) m

unfoldable pub add_entry : KeylogStorage → String → DtlsKeylogEntry → KeylogStorage
add_entry s id entry =
    if is_empty id
    then s
    else if not (contains_key id s.sessions)
    then (let (sessions, order) = evict s.config.max_sessions s.sessions s.session_order in
        record s { sessions = push id entry sessions; session_order = order ++ (id ∷ []) })
    else record s { sessions = push id entry s.sessions }

unfoldable pub get_entries : KeylogStorage → String → Option (List DtlsKeylogEntry)
get_entries s id = lookup String-discrete id s.sessions

unfoldable pub has_session : KeylogStorage → String → Bool
has_session s id = contains_key id s.sessions

unfoldable pub clear : KeylogStorage → KeylogStorage
clear s = record s { sessions = []; session_order = [] }

-- `sessions.values().map(|v| v.len()).sum()`
unfoldable pub total_entries : Map String (List DtlsKeylogEntry) → ℕ
total_entries [] = 0
total_entries ((id, es) ∷ m) = length es + total_entries m

unfoldable pub stats : KeylogStorage → KeylogStats
stats s = record {
  sessions_stored = length s.sessions;
  total_entries = total_entries s.sessions;
  max_sessions = s.config.max_sessions;
}

-- `DtlsKeylogService`: the storage behind the switch of the configuration.
pub record DtlsKeylogService : Type 0 where
  pub storage : KeylogStorage
  pub config : DtlsKeylogConfig

unfoldable pub add_keylog : DtlsKeylogService → String → DtlsKeylogEntry → DtlsKeylogService
add_keylog k id entry =
    if not k.config.enabled then k else record k { storage = add_entry k.storage id entry }

unfoldable pub get_keylogs : DtlsKeylogService → String → List DtlsKeylogEntry
get_keylogs k id = or_new (get_entries k.storage id)
