-- ===== src/Store/Uploads.antt =====
-- src/store.rs: the multipart uploads, from CreateMultipartUpload to CompleteMultipartUpload or
-- AbortMultipartUpload. The upload id is what `new_upload_id` drew.
pub mod Assembly
pub mod Commit
pub mod ReadBack
pub mod Tests
use cubby.Base.{
  ℕ, ◌+◌, ◌≡◌, Bool, true, false, not, ◌&&◌, Option, none, some, List, [], ◌∷◌, Text, codes, map,
  leb, ltb, if◌then◌else◌, is_some, is_empty, unwrap_or, length, take,
}
use cubby.Utf8.{as_bytes}
use cubby.Keypath.{push}
use cubby.Base.Integers.{ℤ, pos}
use cubby.Multipart.{
  RecordedPart, SubmittedPart, CompleteError, empty, out_of_order, invalid_part, Completion, ok,
  err, composite_etag, validate_complete,
}
use cubby.Notify.{complete_multipart_upload, created}
use cubby.Db.{
  ObjectRow, MultipartRow, PartRow, bucket_exists, create_multipart, get_multipart, put_part,
  all_parts, list_parts, complete_multipart, delete_multipart,
}
use cubby.Store
use cubby.Store.{
  S3Error, no_such_bucket, no_such_upload, invalid_argument, invalid_request, invalid_part_order,
  S3Result, Removal, Setup, World, Action, ◌>>=◌ as bind, return, fail, db_call, db_read, io,
  stream_to_temp, object_path, fire, now, ensure, remove, open_file, hex_md5, default_content_type,
  resolve_max_parts,
}
use cubby.Store.Files.{db_try, copy_into, synced, with_temp, rename_into, multipart_dir}

-- A part of the client's list, as the XML had it.
pub record CompletedPart : Type 0 where
  pub part_number : Option ℤ
  pub e_tag : Option Text

abbrev pub submitted_of : CompletedPart → SubmittedPart
submitted_of p = record {
  part_number = unwrap_or p.part_number (pos 0);
  etag = unwrap_or p.e_tag [];
}

abbrev pub recorded_of : PartRow → RecordedPart
recorded_of p = record { part_number = p.part_number; size = p.size; etag_hex = p.etag }

abbrev pub error_of : CompleteError → S3Error
error_of empty = invalid_request
error_of out_of_order = invalid_part_order
error_of (invalid_part part_number) = S3Error.invalid_part

pub record ListPartsOutput : Type 0 where
  pub max_parts : ℕ
  pub part_number_marker : Option ℕ
  pub next_part_number_marker : Option ℕ
  pub is_truncated : Bool
  pub last_modified : ℕ
  pub parts : Option (List PartRow)

-- `rows.last().map(|p| p.part_number)`
abbrev pub last_number : List PartRow → Option ℕ
last_number [] = none
last_number (p ∷ []) = some p.part_number
last_number (p ∷ q ∷ rows) = last_number (q ∷ rows)

abbrev pub parts_output : ℕ → Option ℕ → ℕ → List PartRow → ListPartsOutput
parts_output max_parts marker at_time rows =
    let kept = take max_parts rows in
    record {
      max_parts = max_parts;
      part_number_marker = marker;
      next_part_number_marker = if ltb max_parts (length rows) then last_number kept else none;
      is_truncated = ltb max_parts (length rows);
      last_modified = at_time;
      parts = if is_empty kept then none else some kept;
    }

-- `(1..=10000).contains(&part_number)`, of an `i32` given as its sign and its size.
abbrev pub is_part_number : Bool → ℕ → Bool
is_part_number negative n = not negative && leb 1 n && leb n 10000

module _ (setup : Setup) where
  open setup use {fs, digests}

  infixl 5 ◌>>=◌ ◌>>◌
  abbrev ◌>>=◌ : {A B : Type 0} → Action setup A → (A → Action setup B) → Action setup B
  m >>= k = bind setup m k

  abbrev ◌>>◌ : {A B : Type 0} → Action setup A → Action setup B → Action setup B
  m >> k = bind setup m (λ _. k)

  abbrev pub stage_dir : Text → Text
  stage_dir upload_id = push (multipart_dir setup) (as_bytes upload_id)

  abbrev pub part_path : Text → ℕ → Text
  part_path upload_id part_number = push (stage_dir upload_id) (digests.decimal part_number)

  abbrev pub ensure_upload : Text → Action setup (Unit)
  ensure_upload upload_id = do
    upload ← db_read setup (get_multipart upload_id)
    ensure setup no_such_upload (is_some upload)

  unfoldable pub create_multipart_upload_handler :
      Text → Text → Option Text → Text → Text → Action setup Text
  unfolding bucket_exists create_multipart
  create_multipart_upload_handler bucket key content_type metadata upload_id = do
    exists ← db_read setup (bucket_exists bucket)
    ensure setup no_such_bucket exists
    io setup (fs.create_dir_all (stage_dir upload_id))
    at_time ← now setup
    db_try setup (λ db.
        elim (create_multipart
          record {
            upload_id = upload_id;
            bucket = bucket;
            key = key;
            content_type = content_type;
            metadata = metadata;
            started_at = at_time;
          }
          db) [ none ↦ none | some later ↦ some (tt, later) ])
    return setup upload_id

  unfoldable pub upload_part_handler :
      Text → Bool → ℕ → Option (List (Option Text)) → Action setup Text
  unfolding get_multipart stream_to_temp rename_into put_part
  upload_part_handler upload_id negative part_number body = do
    ensure setup invalid_argument (is_part_number negative part_number)
    ensure_upload upload_id
    (temp, bytes) ← stream_to_temp setup body
    rename_into setup temp (part_path upload_id part_number)
    db_call setup
        (λ db. (tt, put_part upload_id part_number (length bytes) (hex_md5 setup bytes) db))
    return setup (hex_md5 setup bytes)

  abbrev pub lifted : {A : Type 0} → S3Result A → Action setup A
  lifted r w = (r, w)

  -- One row more than the page tells whether there are more.
  unfoldable pub list_parts_handler :
      Text → Option (Bool × ℕ) → Option ℕ → Action setup ListPartsOutput
  unfolding get_multipart list_parts
  list_parts_handler upload_id max_parts marker = do
    limit ← lifted (resolve_max_parts max_parts)
    ensure_upload upload_id
    rows ← db_read setup (list_parts upload_id marker (limit + 1))
    at_time ← now setup
    return setup (parts_output limit marker at_time rows)

  -- `for part in parts`, with the total so far.
  unfoldable pub append_parts : Text → Text → ℕ → List RecordedPart → Action setup ℕ
  unfolding copy_into
  append_parts temp upload_id total [] = return setup total
  append_parts temp upload_id total (part ∷ parts) = do
    n ← copy_into setup temp (part_path upload_id part.part_number)
    append_parts temp upload_id (total + n) parts

  unfoldable pub assemble_parts : Text → List RecordedPart → Action setup (Text × ℕ)
  unfolding append_parts synced with_temp
  assemble_parts upload_id parts =
      with_temp setup (codes "assemble")
        λ temp. do total ← append_parts temp upload_id 0 parts; synced setup temp (temp, total)

  abbrev pub selected_of : Completion → Action setup (List RecordedPart)
  selected_of (ok selected) = return setup selected
  selected_of (err e) = fail setup (error_of e)

  -- A recorded ETag that is no hex panics.
  abbrev pub or_panic : {A : Type 0} → Option A → Action setup A
  or_panic none w = (S3Result.panicked, w)
  or_panic (some a) w = (S3Result.ok a, w)

  abbrev pub or_no_upload : Option MultipartRow → Action setup MultipartRow
  or_no_upload none = fail setup no_such_upload
  or_no_upload (some upload) = return setup upload

  abbrev pub completed_row : Text → Text → MultipartRow → ℕ → Text → ℕ → ObjectRow
  completed_row bucket key upload total_size composite at_time = record {
    bucket = bucket;
    key = key;
    size = total_size;
    etag = composite;
    content_type = some (unwrap_or upload.content_type default_content_type);
    last_modified = at_time;
    metadata = upload.metadata;
  }

  -- What becomes of the staging tree does not matter.
  abbrev pub try_remove : (fs.Disk → Removal × fs.Disk) → Action setup Unit
  try_remove f w = (S3Result.ok tt, record w { disk = (f w.disk).1 })

  -- From the assembly of the selected parts on.
  unfoldable pub finish_upload :
      Text → Text → Text → MultipartRow → List RecordedPart → Text → Action setup Text
  unfolding assemble_parts rename_into complete_multipart
  finish_upload bucket key upload_id upload selected composite = do
    (temp, total_size) ← assemble_parts upload_id selected
    final_path ← object_path setup bucket key
    rename_into setup temp final_path
    at_time ← now setup
    db_call setup (λ db. (
      tt,
      complete_multipart upload_id (completed_row bucket key upload total_size composite at_time)
          db,
    ))
    fire setup (created bucket key complete_multipart_upload total_size composite)
    try_remove (fs.remove_dir_all (stage_dir upload_id))
    return setup composite

  unfoldable pub complete_multipart_upload_handler :
      Text → Text → Text → List CompletedPart → Action setup Text
  unfolding finish_upload get_multipart all_parts composite_etag validate_complete
  complete_multipart_upload_handler bucket key upload_id parts = do
    found ← db_read setup (get_multipart upload_id)
    upload ← or_no_upload found
    rows ← db_read setup (all_parts upload_id)
    selected ← selected_of (validate_complete (map submitted_of parts) (map recorded_of rows))
    composite ← or_panic (composite_etag digests (map (λ p. p.etag_hex) selected))
    finish_upload bucket key upload_id upload selected composite

  unfoldable pub abort_multipart_upload_handler : Text → Action setup Unit
  unfolding get_multipart delete_multipart
  abort_multipart_upload_handler upload_id = do
    ensure_upload upload_id
    db_call setup (λ db. (tt, delete_multipart upload_id db))
    remove setup (fs.remove_dir_all (stage_dir upload_id))
