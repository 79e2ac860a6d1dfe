-- ===== src/Trace.antt =====
-- server/src/tracing_buffer.rs: `TracingBuffer`, the log kept in memory. The clock and the locks are
-- outside: a call is a function on the state, and the time of an entry is an argument.
pub mod Contents
mod Tests
use netpoke.Prelude.{
  ℕ, zero, suc, ◌+◌, ◌-◌, Bool, not, List, [], ◌∷◌, ◌++◌, String, ltb, ◌==◌, if◌then◌else◌, length,
}
use netpoke.Fault.{Outcome, found, ◌>>=◌, index, store, remainder}

pub data Level : Type 0 where
  trace debug info warn error : Level

pub record LogEntry : Type 0 where
  pub timestamp_us : ℕ
  pub level : Level
  pub target : String
  pub message : String

pub record TracingBuffer : Type 0 where
  pub entries : List LogEntry
  pub max_entries : ℕ
  pub next_index : ℕ
  pub enabled : Bool

pub record TracingStats : Type 0 where
  pub entries_in_buffer : ℕ
  pub max_entries : ℕ
  pub enabled : Bool

unfoldable pub new : ℕ → Bool → TracingBuffer
new max_entries enabled = record {
  entries = [];
  max_entries = max_entries;
  next_index = 0;
  enabled = enabled;
}

unfoldable pub add_entry : TracingBuffer → LogEntry → Outcome TracingBuffer
add_entry b entry = if not b.enabled then found b else (do
  entries ←
      if ltb (length b.entries) b.max_entries
      then found (b.entries ++ (entry ∷ []))
      else store b.entries b.next_index entry
  next_index ← remainder (b.next_index + 1) b.max_entries
  found (record b { entries = entries; next_index = next_index }))

-- `for i in first..first + n { result.push(entries[i].clone()) }`
unfoldable pub copy_range : List LogEntry → ℕ → ℕ → Outcome (List LogEntry)
copy_range entries first zero = found []
copy_range entries first (suc n) = do
  entry ← index entries first
  rest ← copy_range entries (suc first) n
  found (entry ∷ rest)

unfoldable pub get_entries : TracingBuffer → Outcome (List LogEntry)
get_entries b = if ltb (length b.entries) b.max_entries then found b.entries else (do
  oldest ← copy_range b.entries b.next_index (length b.entries - b.next_index)
  newest ← copy_range b.entries 0 b.next_index
  found (oldest ++ newest))

unfoldable pub len : TracingBuffer → ℕ
len b = length b.entries

unfoldable pub is_empty : TracingBuffer → Bool
is_empty b = length b.entries == 0

unfoldable pub clear : TracingBuffer → TracingBuffer
clear b = record b { entries = []; next_index = 0 }

unfoldable pub stats : TracingBuffer → TracingStats
stats b = record { entries_in_buffer = len b; max_entries = b.max_entries; enabled = b.enabled }
