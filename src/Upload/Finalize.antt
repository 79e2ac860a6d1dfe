-- ===== src/Upload/Finalize.antt =====
-- server/src/upload_api.rs: `finalize_upload`, which compares the checksums of the files as they are.
use netpoke.Prelude.{
  ℕ, Bool, not, ◌&&◌, none, some, String, String-discrete, if◌then◌else◌, lookup, insert,
}
use netpoke.Upload.{
  Hashing, UploadState, Recording, Answer, ok, err, same_text, flatten, calculate_combined_checksum,
  calculate_file_checksums,
}

pub record FinalizeUploadRequest : Type 0 where
  pub recording_id : String
  pub video_final_checksum : String
  pub sensor_final_checksum : String

pub record FinalizeUploadResponse : Type 0 where
  pub status : String
  pub video_verified : Bool
  pub sensor_verified : Bool

module _ (h : Hashing) where
  open h use {join}

  -- The combined checksum of a file as it is on the disk.
  abbrev pub combined : UploadState → String → ℕ → String
  combined s path total_size =
      calculate_combined_checksum h
        (flatten (calculate_file_checksums h (lookup String-discrete path s.files) total_size))

  -- The end of `finalize_upload`: the new status of the recording, and the response.
  abbrev pub finalized : Bool → Bool → ℕ → Recording → Recording
  finalized video_verified sensor_verified now r =
      if video_verified && sensor_verified
      then record r { upload_status = "complete"; completed_at = some now }
      else record r { upload_status = "failed" }

  unfoldable pub finalize_upload :
      Bool → ℕ → UploadState → FinalizeUploadRequest → UploadState × Answer FinalizeUploadResponse
  finalize_upload updates now s req =
      if not s.db
      then (s, err 503 "Upload feature is unavailable - database not configured")
      else elim (lookup String-discrete req.recording_id s.recordings) [
        | none ↦ (s, err 404 (join "Recording not found: " req.recording_id))
        | some r ↦
            let video_verified =
              same_text (combined s r.video_path r.video_size_bytes) req.video_final_checksum in
            let sensor_verified =
              same_text (combined s r.sensor_path r.sensor_size_bytes) req.sensor_final_checksum in
            if not updates then (s, err 500 "Failed to update recording status") else (
              record s {
                recordings =
                    insert String-discrete req.recording_id
                      (finalized video_verified sensor_verified now r) s.recordings;
              },
              ok (record {
                status = if video_verified && sensor_verified then "complete" else "failed";
                video_verified = video_verified;
                sensor_verified = sensor_verified;
              }),
            )
      ]
