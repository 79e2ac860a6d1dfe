-- ===== src/Keylog/Tests.antt =====
-- Examples of the Keylog modules at concrete inputs.
use netpoke.Prelude.{ℕ, ◌≡◌, true, none, [], ◌∷◌, String-discrete, lookup, insert}
use netpoke.Keylog
use netpoke.Keylog.{DtlsKeylogEntry, DtlsKeylogConfig, KeylogStorage, add_entry, get_entries}
use netpoke.Keylog.Storage.{IsValid, new-IsValid}
use netpoke.Keylog.Eviction.{add_entry-IsValid, get_entries-add_entry}

abbrev two_sessions : DtlsKeylogConfig
two_sessions = record { max_sessions = 2; enabled = true }

abbrev key : ℕ → DtlsKeylogEntry
key n = record { client_random = n ∷ []; master_secret = n ∷ n ∷ []; timestamp = n }

abbrev full : KeylogStorage
full = add_entry (add_entry (Keylog.new two_sessions) "s1" (key 1)) "s2" (key 2)

full-IsValid : IsValid full
full-IsValid =
    add_entry-IsValid (add_entry (Keylog.new two_sessions) "s1" (key 1)) "s2" (key 2)
      (add_entry-IsValid (Keylog.new two_sessions) "s1" (key 1) (new-IsValid two_sessions))

add_entry-IsValid_example : IsValid (add_entry full "s3" (key 3))
add_entry-IsValid_example = add_entry-IsValid full "s3" (key 3) full-IsValid

-- The third session pushes the first one out.
get_entries-add_entry_example : get_entries (add_entry full "s3" (key 3)) "s1" ≡ none
unfolding Keylog.new add_entry String-discrete lookup insert Keylog.evict
get_entries-add_entry_example = get_entries-add_entry full "s3" (key 3) "s1" full-IsValid
