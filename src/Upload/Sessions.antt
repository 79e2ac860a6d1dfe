-- ===== src/Upload/Sessions.antt =====
-- server/src/upload_api.rs: what the uploads of the chunks of a content do.
use netpoke.Prelude.{
  ℕ, ◌+◌, ◌*◌, ◌%◌, ◌^◌, ◌≤◌, ◌<◌, ◌≡◌, sym, ap, ◌∙◌, subst, true, ◌||◌, none, some, List, [], ◌∷◌,
  arith, String, String-discrete, length, length-take, length-drop, take, drop, ltb, lookup, insert,
  lookup-insert_self,
}
use netpoke.Upload.{
  Hashing, UploadState, Recording, ChunkHeaders, Disk, chunk_size, contents, write_at, same_text,
  path_of, uploaded, calculate_checksum, upload_chunk, verify_chunk, store_chunk,
}
use netpoke.Upload.Files.{chunk, length-write_at}

-- A disk and a database that work.
abbrev pub working : Disk
working = record { opens = true; seeks = true; fails_after = none; flushes = true; updates = true }

in_i64 : (n : ℕ) → n < 2 ^ 63 → ltb (n % 2 ^ 64) (2 ^ 63) ≡ true
in_i64 n h = ground arith

pub chunk_within :
    (offset : ℕ) (content : List ℕ)
    → offset < length content
    → let bytes = take chunk_size (drop offset content) in
      (0 < length bytes) × (offset + length bytes ≤ length content)
chunk_within offset content h =
    ground (arith, length-take chunk_size (drop offset content), length-drop offset content)

module _ (h : Hashing) (id file_type : String) (content : List ℕ) where
  abbrev pub headers : ℕ → ChunkHeaders
  headers i = record {
    recording_id = some id;
    file_type = some file_type;
    chunk_index = some i;
    chunk_checksum = some (calculate_checksum h (chunk content i));
  }

  -- The client's uploads, one after the other.
  abbrev pub upload_all : UploadState → List ℕ → UploadState
  upload_all s [] = s
  upload_all s (i ∷ is) = upload_all (upload_chunk h working s (headers i) (chunk content i)).0 is

  -- The file of the recording, as the server has it.
  abbrev pub file_in : UploadState → String → List ℕ
  file_in s path = contents (lookup String-discrete path s.files)

  -- What stays of the recording, and what the file may be.
  pub record IsReceiving (s : UploadState) (path : String) : Type 0 where
    pub recording : Recording
    pub is_on : s.db ≡ true
    pub row : lookup String-discrete id s.recordings ≡ some recording
    pub stored : path_of h file_type recording ≡ path
    pub fits : length (file_in s path) ≤ length content

  same_text_self : (t : String) → same_text t t ≡ true
  same_text_self t = ground arith

  path_of-uploaded :
      (n : ℕ) (r : Recording)
      → path_of h file_type (uploaded h file_type n r) ≡ path_of h file_type r
  path_of-uploaded n r = ground arith

  -- What an upload of a chunk does.
  stores :
      (s : UploadState) (path : String) (i : ℕ)
      → (same_text file_type "video" || same_text file_type "sensor") ≡ true
      → length content < 2 ^ 63
      → i * chunk_size < length content
      → (r : IsReceiving s path)
      → (upload_chunk h working s (headers i) (chunk content i)).0 ≡ record s {
        files =
            insert String-discrete path
              (write_at (file_in s path) (i * chunk_size) (chunk content i))
              s.files;
        recordings =
            insert String-discrete id
              (uploaded h file_type
                ((i * chunk_size + length (chunk content i)) % 2 ^ 64)
                r.recording)
              s.recordings;
      }
  unfolding upload_chunk verify_chunk store_chunk
  stores s path i t m b r =
      rw (r.is_on, t, same_text_self (calculate_checksum h (chunk content i)), r.row)
        (rw (r.stored, small) (rw below (cc r.is_on)))
    where
      small : (i * chunk_size) % 2 ^ 64 ≡ i * chunk_size
      small = omega (arith, b, m)

      below : ltb ((i * chunk_size + length (chunk content i)) % 2 ^ 64) (2 ^ 63) ≡ true
      below =
          in_i64 (i * chunk_size + length (chunk content i))
            (omega (arith, (chunk_within (i * chunk_size) content b).1, m))

  -- The recording after one more chunk.
  pub receives :
      (s : UploadState) (path : String) (i : ℕ)
      → (same_text file_type "video" || same_text file_type "sensor") ≡ true
      → length content < 2 ^ 63
      → i * chunk_size < length content
      → (r : IsReceiving s path)
      → let s' = (upload_chunk h working s (headers i) (chunk content i)).0 in
        IsReceiving s' path
        × (file_in s' path ≡ write_at (file_in s path) (i * chunk_size) (chunk content i))
  receives s path i t m b r =
      subst
        (λ s'.
          IsReceiving s' path
          × (file_in s' path ≡ write_at (file_in s path) (i * chunk_size) (chunk content i)))
        (sym (stores s path i t m b r))
        (
          record {
            recording =
                uploaded h file_type ((i * chunk_size + length (chunk content i)) % 2 ^ 64)
                  r.recording;
            is_on = r.is_on;
            row = lookup-insert_self String-discrete id _ s.recordings;
            stored = path_of-uploaded _ r.recording ∙ r.stored;
            fits =
                rw
                  (lookup-insert_self String-discrete path
                    (write_at (file_in s path) (i * chunk_size) (chunk content i)) s.files)
                  (omega (
                    arith,
                    length-write_at (file_in s path) (i * chunk_size) (chunk content i)
                        (chunk_within (i * chunk_size) content b).0,
                    (chunk_within (i * chunk_size) content b).1,
                    r.fits,
                  ));
          },
          ap contents (lookup-insert_self String-discrete path _ s.files),
        )
