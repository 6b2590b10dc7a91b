-- ===== src/Store/Requests.antt =====
-- src/store.rs: the operations that change state, as the requests that s3s hands to the store.
pub mod Steps
pub mod Preserves
pub mod FailedWrites
pub mod Failures
pub mod SoundUploads
pub mod Integrity
pub mod Tests
use cubby.Base.{ℕ, Bool, true, false, Option, List, [], ◌∷◌, Text}
use cubby.Store.{
  Setup, World, Action, ◌>>=◌, return, create_bucket_handler, put_object_handler,
  delete_object_handler, delete_bucket_handler,
}
use cubby.Store.Copies.{CopyObjectInput, copy_object_handler, delete_objects_handler}
use cubby.Store.Uploads.{
  CompletedPart, create_multipart_upload_handler, upload_part_handler,
  complete_multipart_upload_handler, abort_multipart_upload_handler,
}
use cubby.Store.CorsConfig.{RulesJson, DtoRule, put_bucket_cors_handler, delete_bucket_cors_handler}

pub data Request : Type 0 where
  create_bucket : Text → Request
  delete_bucket : Text → Request
  put_object : Text → Text → Option (List (Option Text)) → Option Text → Text → Request
  copy_object : CopyObjectInput → Request
  delete_object : Text → Text → Request
  delete_objects : Text → List Text → Bool → Request
  create_multipart_upload : Text → Text → Option Text → Text → Text → Request
  upload_part : Text → Bool → ℕ → Option (List (Option Text)) → Request
  complete_multipart_upload : Text → Text → Text → List CompletedPart → Request
  abort_multipart_upload : Text → Request
  put_bucket_cors : Text → List DtoRule → Request
  delete_bucket_cors : Text → Request

module _ (setup : Setup) (json : RulesJson) where
  -- The answer is left out but for its being one.
  abbrev pub answered : {A : Type 0} → Action setup A → Action setup Unit
  answered m = ◌>>=◌ setup m (λ _. return setup tt)

  abbrev pub serve : Request → Action setup Unit
  serve (create_bucket bucket) = answered (create_bucket_handler setup bucket)
  serve (delete_bucket bucket) = delete_bucket_handler setup bucket
  serve (put_object bucket key body content_type metadata) =
      answered (put_object_handler setup bucket key body content_type metadata)
  serve (copy_object input) = answered (copy_object_handler setup input)
  serve (delete_object bucket key) = delete_object_handler setup bucket key
  serve (delete_objects bucket keys quiet) =
      answered (delete_objects_handler setup bucket keys quiet)
  serve (create_multipart_upload bucket key content_type metadata upload_id) =
      answered (create_multipart_upload_handler setup bucket key content_type metadata upload_id)
  serve (upload_part upload_id negative part_number body) =
      answered (upload_part_handler setup upload_id negative part_number body)
  serve (complete_multipart_upload bucket key upload_id parts) =
      answered (complete_multipart_upload_handler setup bucket key upload_id parts)
  serve (abort_multipart_upload upload_id) = abort_multipart_upload_handler setup upload_id
  serve (put_bucket_cors bucket rules) = put_bucket_cors_handler setup json bucket rules
  serve (delete_bucket_cors bucket) = delete_bucket_cors_handler setup json bucket

  -- One request after the other, whatever each answers.
  pub serve_all : List Request → World setup → World setup
  serve_all [] w = w
  serve_all (request ∷ requests) w = serve_all requests (serve request w).1

-- The requests whose errors leave the metadata alone: those that write the row last.
abbrev pub writes_last : Request → Bool
writes_last (create_bucket bucket) = true
writes_last (put_object bucket key body content_type metadata) = true
writes_last (copy_object input) = true
writes_last (create_multipart_upload bucket key content_type metadata upload_id) = true
writes_last (upload_part upload_id negative part_number body) = true
writes_last (complete_multipart_upload bucket key upload_id parts) = true
writes_last (put_bucket_cors bucket rules) = true
writes_last (delete_bucket_cors bucket) = true
writes_last other = false
