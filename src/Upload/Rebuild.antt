-- ===== src/Upload/Rebuild.antt =====
-- server/src/upload_api.rs: the chunks of a content, uploaded in some order.
use netpoke.Prelude.{min, ℕ, zero, suc, ◌≡◌, List, [], ◌∷◌, String, length}
use netpoke.Upload.{Hashing, chunk_size, calculate_checksum}
use netpoke.Upload.Files.{chunk}

-- Each read fills the buffer as far as the file goes.
abbrev pub IsFilling : Hashing → Type 0
IsFilling h = (bytes : List ℕ) → h.read_size bytes ≡ min chunk_size (length bytes)

module _ (h : Hashing) (id file_type : String) (content : List ℕ) where
  -- The checksums of the chunks of the content, `n` from the `k`-th on, as a client computes them.
  abbrev pub client_checksums : ℕ → ℕ → List String
  client_checksums k zero = []
  client_checksums k (suc n) = calculate_checksum h (chunk content k) ∷ client_checksums (suc k) n
