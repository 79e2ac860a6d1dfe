-- ===== src/Upload/Tests.antt =====
-- Examples of the Upload modules at concrete inputs.
use netpoke.Prelude.{
  min, ℕ, ◌≡◌, true, none, some, List, [], ◌∷◌, arith, String, String-discrete, insert, length,
}
use netpoke.Upload.{Hashing, UploadState, Recording, ChunkHeaders, upload_chunk, chunk_size}
use netpoke.Upload.Sessions.{working}
use netpoke.Upload.Refusals.{upload_chunk-refused, is_err}

-- A digest of a few letters.
abbrev digest : List ℕ → String
digest [] = "e3b0"
digest (b ∷ bytes) = "b94d"

abbrev hashing : Hashing
hashing = record {
  sha256_hex = digest;
  as_bytes = λ t. 0 ∷ [];
  concat = λ ts. "";
  join = λ s t. s;
  read_size = λ bytes. min chunk_size (length bytes);
}

abbrev row : Recording
row = record {
  session_id = "s1";
  video_path = "/data/r1.webm";
  sensor_path = "/data/r1.json";
  video_size_bytes = 3;
  sensor_size_bytes = 2;
  video_uploaded_bytes = 0;
  sensor_uploaded_bytes = 0;
  upload_status = "uploading";
  completed_at = none;
}

abbrev prepared : UploadState
prepared = record { db = true; recordings = insert String-discrete "r1" row []; files = [] }

abbrev video : List ℕ
video = 26 ∷ 69 ∷ 223 ∷ []

abbrev bare_headers : ChunkHeaders
bare_headers = record {
  recording_id = some "r1";
  file_type = some "video";
  chunk_index = some 0;
  chunk_checksum = none;
}

upload_chunk-refused_example :
    ((upload_chunk hashing working prepared bare_headers video).0 ≡ prepared)
    × (is_err (upload_chunk hashing working prepared bare_headers video).1 ≡ true)
upload_chunk-refused_example =
    upload_chunk-refused hashing working prepared bare_headers video (ground arith)
