-- ===== src/Trace/Tests.antt =====
-- Examples of the Trace modules at concrete inputs.
use netpoke.Prelude.{ℕ, ◌≡◌, true, List, [], ◌∷◌, arith}
use netpoke.Fault.{found, ◌>>=◌}
use netpoke.Trace
use netpoke.Trace.{LogEntry, Level, get_entries}
use netpoke.Trace.Contents.{add_all, new-IsValid, get_entries-add_all}

abbrev entry : ℕ → LogEntry
entry t = record { timestamp_us = t; level = Level.info; target = "test"; message = "message" }

abbrev four : List LogEntry
four = entry 1 ∷ entry 2 ∷ entry 3 ∷ entry 4 ∷ []

-- Four messages into three slots.
get_entries-add_all_example :
    (add_all (Trace.new 3 true) four >>= get_entries) ≡ found (entry 2 ∷ entry 3 ∷ entry 4 ∷ [])
unfolding Trace.new
get_entries-add_all_example =
    get_entries-add_all (Trace.new 3 true) four (new-IsValid 3 true (omega arith))
