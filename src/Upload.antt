-- ===== src/Upload.antt =====
-- server/src/upload_api.rs and server/src/upload_utils.rs: the upload of a recording in chunks. The
-- database is the table of the recordings, the disk a map of the files by their paths. SHA-256 and the
-- standard library's texts are parameters; whether the disk and the database work is an argument.
pub mod Finalize
pub mod Files
pub mod Sessions
pub mod Rebuild
pub mod Refusals
mod Tests
use netpoke.Prelude.{
  ℕ, zero, suc, ◌+◌, ◌-◌, ◌*◌, ◌/◌, ◌%◌, ◌^◌, Bool, true, false, not, ◌&&◌, ◌||◌, Option, none,
  some, List, [], ◌∷◌, ◌++◌, String, String-discrete, ltb, ◌==◌, min, max, if◌then◌else◌, ite,
  length, take, drop, Map, lookup, insert,
}

abbrev pub chunk_size : ℕ
chunk_size = 1048576

-- The columns of `recordings` that the uploads read and write.
pub record Recording : Type 0 where
  pub session_id : String
  pub video_path : String
  pub sensor_path : String
  pub video_size_bytes : ℕ
  pub sensor_size_bytes : ℕ
  pub video_uploaded_bytes : ℕ
  pub sensor_uploaded_bytes : ℕ
  pub upload_status : String
  pub completed_at : Option ℕ

-- `db` is whether a database is configured.
pub record UploadState : Type 0 where
  pub db : Bool
  pub recordings : Map String Recording
  pub files : Map String (List ℕ)

-- The headers, as far as they are texts; the index is parsed.
pub record ChunkHeaders : Type 0 where
  pub recording_id : Option String
  pub file_type : Option String
  pub chunk_index : Option ℕ
  pub chunk_checksum : Option String

pub record ChunkUploadResponse : Type 0 where
  pub status : String
  pub chunk_index : ℕ
  pub bytes_received : ℕ

-- A response, or a status code with its text.
pub data Answer (A : Type 0) : Type 0 where
  ok : A → Answer A
  err : ℕ → String → Answer A

-- What the system does during a request: a write that fails has written some octets.
pub record Disk : Type 0 where
  pub opens : Bool
  pub seeks : Bool
  pub fails_after : Option ℕ
  pub flushes : Bool
  pub updates : Bool

-- SHA-256 in hexadecimal, the texts of the standard library, and how many octets one
-- `AsyncReadExt::read` gives of those that are left in a file: it may give fewer than fit.
pub record Hashing : Type 0 where
  pub sha256_hex : List ℕ → String
  pub as_bytes : String → List ℕ
  pub concat : List String → String
  pub join : String → String → String
  pub read_size : List ℕ → ℕ

abbrev pub same_text : String → String → Bool
same_text s t = ite (String-discrete s t) true false

abbrev pub zeros : ℕ → List ℕ
zeros zero = []
zeros (suc n) = 0 ∷ zeros n

-- `seek` and `write_all`: a gap before the octets is filled with zeros; none are written for none.
unfoldable pub write_at : List ℕ → ℕ → List ℕ → List ℕ
write_at file offset [] = file
write_at file offset (b ∷ bytes) =
    take offset file
    ++ zeros (offset - length file)
    ++ (b ∷ bytes)
    ++ drop (offset + length (b ∷ bytes)) file

-- `OpenOptions` with `create(true)`: a missing file is an empty one.
abbrev pub contents : Option (List ℕ) → List ℕ
contents none = []
contents (some bytes) = bytes

-- `(total_size as f64 / CHUNK_SIZE as f64).ceil()`
abbrev pub num_chunks : ℕ → ℕ
num_chunks total_size = (total_size + 1048575) / 1048576

-- `.flatten()`
abbrev pub flatten : List (Option String) → List String
flatten [] = []
flatten (none ∷ cs) = flatten cs
flatten (some c ∷ cs) = c ∷ flatten cs

module _ (h : Hashing) where
  open h use {sha256_hex, as_bytes, concat, join}

  unfoldable pub calculate_checksum : List ℕ → String
  calculate_checksum bytes = sha256_hex bytes

  -- What one read into the buffer gives.
  abbrev pub bytes_read : List ℕ → ℕ
  bytes_read bytes = min (h.read_size bytes) (min chunk_size (length bytes))

  -- The loop that reads into the buffer once for each chunk.
  unfoldable pub read_chunks : ℕ → List ℕ → List (Option String)
  read_chunks zero bytes = []
  read_chunks (suc n) bytes =
      let behind = read_chunks n (drop (bytes_read bytes) bytes) in
      (if bytes_read bytes == 0
        then none
        else some (calculate_checksum (take (bytes_read bytes) bytes)))
      ∷ behind

  unfoldable pub calculate_file_checksums : Option (List ℕ) → ℕ → List (Option String)
  calculate_file_checksums none total_size = []
  calculate_file_checksums (some bytes) total_size = read_chunks (num_chunks total_size) bytes

  unfoldable pub calculate_combined_checksum : List String → String
  calculate_combined_checksum checksums = calculate_checksum (as_bytes (concat checksums))

  abbrev pub path_of : String → Recording → String
  path_of file_type r = if same_text file_type "video" then r.video_path else r.sensor_path

  -- `SET …_uploaded_bytes = MAX(…_uploaded_bytes, ?)`
  abbrev pub uploaded : String → ℕ → Recording → Recording
  uploaded file_type n r =
      if same_text file_type "video"
      then record r { video_uploaded_bytes = max r.video_uploaded_bytes n }
      else record r { sensor_uploaded_bytes = max r.sensor_uploaded_bytes n }

  -- Steps 4 and 5 of `upload_chunk`. A number of the database is an `i64`.
  unfoldable pub store_chunk :
      Disk
      → UploadState
      → String
      → String
      → Recording
      → ℕ
      → List ℕ
      → UploadState × Answer ChunkUploadResponse
  store_chunk disk s id file_type r chunk_index body =
      let path = path_of file_type r in
      let offset = (chunk_index * chunk_size) % 2 ^ 64 in
      let old = contents (lookup String-discrete path s.files) in
      let created = record s { files = insert String-discrete path old s.files } in
      let new_uploaded = (offset + length body) % 2 ^ 64 in
      let written : List ℕ → UploadState = λ bytes. record s {
        files = insert String-discrete path (write_at old offset bytes) s.files;
      } in
      if not disk.opens
      then (s, err 500 "Failed to open file for writing")
      else if not disk.seeks
      then (created, err 500 "Failed to seek in file")
      else elim disk.fails_after [
        | some n ↦ (written (take n body), err 500 "Failed to write chunk")
        | none ↦
            if not disk.flushes
            then (written body, err 500 "Failed to flush file")
            else if not (disk.updates && ltb new_uploaded (2 ^ 63))
            then (written body, err 500 "Failed to update uploaded bytes")
            else (
              record (written body) {
                recordings =
                    insert String-discrete id (uploaded file_type new_uploaded r) s.recordings;
              },
              ok (record {
                status = "received";
                chunk_index = chunk_index;
                bytes_received = length body;
              }),
            )
      ]

  -- Steps 2 and 3: the checksum, and the recording.
  unfoldable pub verify_chunk :
      Disk
      → UploadState
      → String
      → String
      → ℕ
      → String
      → List ℕ
      → UploadState × Answer ChunkUploadResponse
  verify_chunk disk s id file_type chunk_index expected_checksum body =
      if not (same_text (calculate_checksum body) expected_checksum)
      then (s, err 400 "Checksum mismatch")
      else elim (lookup String-discrete id s.recordings) [
        | none ↦ (s, err 404 (join "Recording not found: " id))
        | some r ↦ store_chunk disk s id file_type r chunk_index body
      ]

  -- Steps 0 and 1: the headers, in the order in which they are asked for.
  unfoldable pub upload_chunk :
      Disk → UploadState → ChunkHeaders → List ℕ → UploadState × Answer ChunkUploadResponse
  upload_chunk disk s headers body =
      if not s.db
      then (s, err 503 "Upload feature is unavailable - database not configured")
      else elim headers.recording_id [
        | none ↦ (s, err 400 "Missing X-Recording-Id header")
        | some id ↦ elim headers.file_type [
          | none ↦ (s, err 400 "Missing X-File-Type header")
          | some file_type ↦
              if not (same_text file_type "video" || same_text file_type "sensor")
              then (s, err 400 (join "Invalid file type: " file_type))
              else elim headers.chunk_index [
                | none ↦ (s, err 400 "Missing or invalid X-Chunk-Index header")
                | some chunk_index ↦ elim headers.chunk_checksum [
                  | none ↦ (s, err 400 "Missing X-Chunk-Checksum header")
                  | some expected ↦ verify_chunk disk s id file_type chunk_index expected body
                ]
              ]
        ]
      ]
