-- ===== src/Store/Copies.antt =====
-- src/store.rs: CopyObject and DeleteObjects.
pub mod Copied
pub mod ReadBack
pub mod Tests
use cubby.Base.{
  ℕ, ◌≡◌, Bool, true, false, not, ◌&&◌, Option, none, some, List, [], ◌∷◌, Text, codes, text_eq,
  leb, if◌then◌else◌, unwrap_or, length,
}
use cubby.Utf8.{as_bytes}
use cubby.Keypath.{key_to_relpath}
use cubby.Notify.{copy, ObjectEvent, created, removed}
use cubby.Db.{ObjectRow, bucket_exists, put_object, get_object, delete_objects}
use cubby.Store.{
  no_such_bucket, invalid_request, not_implemented, Setup, Action, ◌>>=◌ as bind, return, fail,
  db_call, db_read, object_path, fire, now, ensure, or_missing, remove, default_content_type,
}
use cubby.Store.Files.{copy_into, synced, with_temp, rename_into}

-- `CopySource`: the other forms are access points.
pub data CopySource : Type 0 where
  bucket_key : Text → Text → CopySource
  access_point : CopySource

-- The metadata are the request's, as `serde_json` prints them.
pub record CopyObjectInput : Type 0 where
  pub bucket : Text
  pub key : Text
  pub copy_source : CopySource
  pub metadata_directive : Option Text
  pub content_type : Option Text
  pub metadata : Text

abbrev pub is_replace : Option Text → Bool
is_replace none = false
is_replace (some directive) = text_eq directive (codes "REPLACE")

abbrev pub same_object : Text → Text → CopyObjectInput → Bool
same_object src_bucket src_key input = text_eq src_bucket input.bucket && text_eq src_key input.key

-- The content type and the metadata of the copy.
abbrev pub described : CopyObjectInput → ObjectRow → Option Text × Text
described input src_row =
    if is_replace input.metadata_directive
    then (some (unwrap_or input.content_type default_content_type), input.metadata)
    else (src_row.content_type, src_row.metadata)

abbrev pub copied_row : CopyObjectInput → ObjectRow → ℕ → ObjectRow
copied_row input src_row at_time = record {
  bucket = input.bucket;
  key = input.key;
  size = src_row.size;
  etag = src_row.etag;
  content_type = (described input src_row).0;
  last_modified = at_time;
  metadata = (described input src_row).1;
}

module _ (setup : Setup) where
  open setup use {fs}

  infixl 5 ◌>>=◌ ◌>>◌
  abbrev ◌>>=◌ : {A B : Type 0} → Action setup A → (A → Action setup B) → Action setup B
  m >>= k = bind setup m k

  abbrev ◌>>◌ : {A B : Type 0} → Action setup A → Action setup B → Action setup B
  m >> k = bind setup m (λ _. k)

  unfoldable pub stage_file_copy : Text → Action setup Text
  unfolding copy_into synced with_temp
  stage_file_copy src =
      with_temp setup (codes "copy") λ temp. do copy_into setup temp src; synced setup temp temp

  -- The bytes of another object; a copy onto itself moves none.
  unfoldable pub move_bytes : Bool → Text → Text → CopyObjectInput → Action setup Unit
  unfolding stage_file_copy rename_into
  move_bytes true src_bucket src_key input = return setup tt
  move_bytes false src_bucket src_key input = do
    src_path ← object_path setup src_bucket src_key
    final_path ← object_path setup input.bucket input.key
    temp ← stage_file_copy src_path
    rename_into setup temp final_path

  -- What follows the lookup of the source, with its row.
  unfoldable pub copy_from : Text → Text → CopyObjectInput → ObjectRow → Action setup (Text × ℕ)
  unfolding move_bytes bucket_exists put_object
  copy_from src_bucket src_key input src_row = do
    exists ← db_read setup (bucket_exists input.bucket)
    ensure setup no_such_bucket exists
    ensure setup invalid_request
        (not (same_object src_bucket src_key input && not (is_replace input.metadata_directive)))
    move_bytes (same_object src_bucket src_key input) src_bucket src_key input
    at_time ← now setup
    db_call setup (λ db. (tt, put_object (copied_row input src_row at_time) db))
    fire setup (created input.bucket input.key copy src_row.size src_row.etag)
    return setup (src_row.etag, at_time)

  abbrev pub copy_of : CopySource → CopyObjectInput → Action setup (Text × ℕ)
  copy_of access_point input = fail setup not_implemented
  copy_of (bucket_key src_bucket src_key) input = do
    found ← db_read setup (get_object src_bucket src_key)
    src_row ← or_missing setup src_bucket found
    copy_from src_bucket src_key input src_row

  -- `copy_object`, which answers the ETag and the time of the copy.
  unfoldable pub copy_object_handler : CopyObjectInput → Action setup (Text × ℕ)
  unfolding copy_from get_object bucket_exists
  copy_object_handler input = copy_of input.copy_source input

  -- `for key in &keys`: a file that is not there is no error.
  unfoldable pub unlink_all : Text → List Text → Action setup Unit
  unlink_all bucket [] = return setup tt
  unlink_all bucket (key ∷ keys) =
      let rest = unlink_all bucket keys in
      do path ← object_path setup bucket key; remove setup (fs.remove_file path); rest

  unfoldable pub fire_all : Text → List Text → Action setup Unit
  fire_all bucket [] = return setup tt
  fire_all bucket (key ∷ keys) =
      let rest = fire_all bucket keys in fire setup (removed bucket key) >> rest

  -- `delete_objects`: the entries `Deleted`, unless it is quiet.
  unfoldable pub delete_objects_handler :
      Text → List Text → Bool → Action setup (Option (List Text))
  unfolding unlink_all fire_all bucket_exists delete_objects
  delete_objects_handler bucket keys quiet = do
    ensure setup invalid_request (leb (length keys) 1000)
    exists ← db_read setup (bucket_exists bucket)
    ensure setup no_such_bucket exists
    removed ← db_call setup (delete_objects bucket keys)
    unlink_all bucket keys
    fire_all bucket removed
    return setup (if quiet then none else some keys)
