-- ===== src/Upload/Refusals.antt =====
-- server/src/upload_api.rs: chunks without the right checksum.
use netpoke.Prelude.{ℕ, ◌≡◌, ◌≢◌, Bool, true, false, some, List, arith}
use netpoke.Upload.{
  Hashing, UploadState, ChunkHeaders, Answer, ok, err, Disk, calculate_checksum, upload_chunk,
  verify_chunk,
}

abbrev pub is_err : {A : Type 0} → Answer A → Bool
is_err (ok a) = false
is_err (err status text) = true

-- A chunk whose checksum header is missing or is not the checksum of the body is answered with an
-- error, whatever the other headers, the recording and the disk are, and neither a file nor the
-- database changes.
pub upload_chunk-refused :
    (h : Hashing) (disk : Disk) (s : UploadState) (headers : ChunkHeaders) (body : List ℕ)
    → headers.chunk_checksum ≢ some (calculate_checksum h body)
    → ((upload_chunk h disk s headers body).0 ≡ s)
      × (is_err (upload_chunk h disk s headers body).1 ≡ true)
unfolding upload_chunk verify_chunk
upload_chunk-refused h disk s headers body n = (ground (arith, n), ground (arith, n))
