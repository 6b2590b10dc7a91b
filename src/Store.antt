-- ===== src/Store.antt =====
-- src/store.rs: the S3 operations on buckets and objects, over the metadata store and the files.
pub mod Atomic
pub mod Objects
pub mod RoundTrip
pub mod Staging
pub mod ReadBack
pub mod PutGet
pub mod Deletes
pub mod Files
pub mod Outcome
pub mod Copies
pub mod Uploads
pub mod CorsConfig
pub mod Requests
pub mod Listings
pub mod Tests
use cubby.Base.{
  ℕ, zero, suc, ◌+◌, ◌-◌, ◌%◌, ◌^◌, min, ◌≡◌, Bool, true, false, not, ◌&&◌, Option, none, some,
  List, [], ◌∷◌, ◌++◌, Text, codes, if◌then◌else◌, is_some, unwrap_or, take, drop, length,
}
use cubby.Utf8.{as_bytes}
use cubby.Keypath.{PercentEncoding, key_to_relpath, push}
use cubby.Multipart.{Digests}
use cubby.Notify.{EventKind, put, ObjectEvent, created, removed}
use cubby.Db.{
  Db, ObjectRow, DeleteBucketOutcome, missing, not_empty, deleted, bucket_exists, create_bucket,
  try_delete_bucket, put_object, get_object, delete_object,
}

pub data S3Error : Type 0 where
  internal_error no_such_bucket no_such_key bucket_not_empty : S3Error
  bucket_already_owned_by_you invalid_argument invalid_range : S3Error
  no_such_upload invalid_request invalid_part invalid_part_order : S3Error
  not_implemented no_such_cors_configuration : S3Error

-- `S3Result`, and a panic of the task.
pub data S3Result (A : Type 0) : Type 0 where
  ok : A → S3Result A
  err : S3Error → S3Result A
  panicked : S3Result A

-- How a removal of a file or a directory ends: by `io::ErrorKind`.
pub data Removal : Type 0 where
  gone not_found other_kind : Removal

-- The file system and tokio's operations on it. A disk is whatever decides how they end: `false` is an
-- error. The laws are what a success means for what a path reads as, and that a write to one file leaves
-- another alone: paths are `Apart` that no link or spelling makes the same file, and a file is `Outside`
-- a directory if no path leads to it from there.
pub record FileSystem : Type 1 where
  pub Disk : Type 0
  pub read : Text → Disk → Option Text
  pub create : Text → Disk → Bool × Disk
  pub write_all : Text → Text → Disk → Bool × Disk
  pub sync_all : Text → Disk → Bool × Disk
  pub create_dir_all : Text → Disk → Bool × Disk
  pub rename : Text → Text → Disk → Bool × Disk
  pub remove_file : Text → Disk → Removal × Disk
  pub remove_dir_all : Text → Disk → Removal × Disk
  pub parent : Text → Option Text
  pub Apart : Text → Text → Type 0
  pub Outside : Text → Text → Type 0
  pub read-create : (p : Text) (d : Disk) → (create p d).0 ≡ true → read p (create p d).1 ≡ some []
  pub read-write_all :
      (p bytes old : Text) (d : Disk)
      → read p d ≡ some old
      → (write_all p bytes d).0 ≡ true
      → read p (write_all p bytes d).1 ≡ some (old ++ bytes)
  pub read-sync_all : (p q : Text) (d : Disk) → read q (sync_all p d).1 ≡ read q d
  pub read-create_dir_all : (p q : Text) (d : Disk) → read q (create_dir_all p d).1 ≡ read q d
  pub read-rename :
      (from to : Text) (d : Disk)
      → (rename from to d).0 ≡ true
      → read to (rename from to d).1 ≡ read from d
  pub create_apart : (p q : Text) (d : Disk) → Apart p q → read q (create p d).1 ≡ read q d
  pub write_all_apart :
      (p q bytes : Text) (d : Disk) → Apart p q → read q (write_all p bytes d).1 ≡ read q d
  pub remove_dir_all_outside :
      (p q : Text) (d : Disk) → Outside p q → read q (remove_dir_all p d).1 ≡ read q d

-- What the store is given: the crates, the data directory, its temporary names, the clock, and whether
-- `serde_json` reads a text as a metadata object.
pub record Setup : Type 1 where
  pub fs : FileSystem
  pub pe : PercentEncoding
  pub digests : Digests
  pub root : Text
  pub tmp_path : ℕ → Text → Text
  pub unix_now : ℕ → ℕ
  pub is_metadata : Text → Bool

abbrev pub default_content_type : Text
default_content_type = codes "application/octet-stream"

abbrev pub resolve_limit : Option (Bool × ℕ) → S3Result ℕ
resolve_limit none = ok 1000
resolve_limit (some (true, n)) = err invalid_argument
resolve_limit (some (false, n)) = ok (min n 1000)

-- `resolve_max_keys` and `resolve_max_parts`, of an `i32` given as its sign and its size.
abbrev pub resolve_max_keys : Option (Bool × ℕ) → S3Result ℕ
resolve_max_keys max_keys = resolve_limit max_keys

abbrev pub resolve_max_parts : Option (Bool × ℕ) → S3Result ℕ
resolve_max_parts max_parts = resolve_limit max_parts

pub record ObjectOutput : Type 0 where
  pub body : Text
  pub content_length : ℕ
  pub content_range : Option (ℕ × ℕ × ℕ)
  pub content_type : Option Text
  pub e_tag : Text
  pub last_modified : ℕ
  pub metadata : Text
  pub partial_content : Bool

module _ (setup : Setup) where
  open setup use {fs, pe, digests}

  -- The state: `db_faults` says of each later call of the database whether it fails.
  pub record World : Type 0 where
    pub db : Db
    pub disk : fs.Disk
    pub db_faults : List Bool
    pub tmp_counter : ℕ
    pub ticks : ℕ
    pub fired : List ObjectEvent

  abbrev pub Action : Type 0 → Type 0
  Action A = World → S3Result A × World

  abbrev pub after : {A B : Type 0} → S3Result A → World → (A → Action B) → S3Result B × World
  after (ok a) w k = k a w
  after (err e) w k = (err e, w)
  after panicked w k = (panicked, w)

  infixl 5 ◌>>=◌
  unfoldable pub ◌>>=◌ : {A B : Type 0} → Action A → (A → Action B) → Action B
  (m >>= k) w = after (m w).0 (m w).1 k

  abbrev pub return : {A : Type 0} → A → Action A
  return a w = (ok a, w)

  abbrev pub fail : {A : Type 0} → S3Error → Action A
  fail e w = (err e, w)

  abbrev pub answered : {A : Type 0} → List Bool → A × Db → World → S3Result A × World
  answered [] (a, db) w = (ok a, record w { db = db })
  answered (true ∷ faults) (a, db) w = (err internal_error, record w { db_faults = faults })
  answered (false ∷ faults) (a, db) w = (ok a, record w { db = db; db_faults = faults })

  -- `db_call`
  abbrev pub db_call : {A : Type 0} → (Db → A × Db) → Action A
  db_call f w = answered w.db_faults (f w.db) w

  abbrev pub db_read : {A : Type 0} → (Db → A) → Action A
  db_read f = db_call (λ db. (f db, db))

  abbrev pub unless_failed : Bool → World → S3Result Unit × World
  unless_failed true w = (ok tt, w)
  unless_failed false w = (err internal_error, w)

  -- `.await.map_err(internal)?` on an operation of the file system.
  abbrev pub io : (fs.Disk → Bool × fs.Disk) → Action Unit
  io f w = unless_failed (f w.disk).0 record w { disk = (f w.disk).1 }

  -- An error removes the temporary file, whatever becomes of the removal.
  abbrev pub cleaned : {A : Type 0} → Text → S3Result A → World → S3Result A × World
  cleaned temp (err e) w = (err e, record w { disk = (fs.remove_file temp w.disk).1 })
  cleaned temp (ok a) w = (ok a, w)
  cleaned temp panicked w = (panicked, w)

  abbrev pub or_clean : {A : Type 0} → Text → Action A → Action A
  or_clean temp m w = cleaned temp (m w).0 (m w).1

  abbrev pub path_of : Text → Text → Option Text → S3Result Text
  path_of root bucket none = panicked
  path_of root bucket (some rel) = ok (push (push (push root (codes "buckets")) bucket) rel)

  -- `self.dirs.bucket_dir(&bucket).join(key_to_relpath(&key))`
  abbrev pub object_path : Text → Text → Action Text
  object_path bucket key w =
      (path_of setup.root (as_bytes bucket) (key_to_relpath pe (as_bytes key)), w)

  abbrev pub bucket_dir : Text → Text
  bucket_dir bucket = push (push setup.root (codes "buckets")) (as_bytes bucket)

  abbrev pub fire : ObjectEvent → Action Unit
  fire event w = (ok tt, record w { fired = w.fired ++ event ∷ [] })

  abbrev pub now : Action ℕ
  now w = (ok (setup.unix_now w.ticks), record w { ticks = w.ticks + 1 })

  -- `TMP_COUNTER.fetch_add`, and the path of the number with an extension.
  abbrev pub next_tmp : Text → Action Text
  next_tmp ext w = (
    ok (setup.tmp_path w.tmp_counter ext),
    record w { tmp_counter = (w.tmp_counter + 1) % 2 ^ 64 },
  )

  -- The chunks of a body, `none` for one that fails to arrive; the bytes so far are what the hasher
  -- and the size have seen.
  unfoldable pub write_chunks : Text → Text → List (Option Text) → Action Text
  write_chunks temp seen [] = return seen
  write_chunks temp seen (none ∷ chunks) = fail internal_error
  write_chunks temp seen (some bytes ∷ chunks) =
      let rest = write_chunks temp (seen ++ bytes) chunks in
      io (fs.write_all temp bytes) >>= λ _. rest

  unfoldable pub stream_to_temp : Option (List (Option Text)) → Action (Text × Text)
  unfolding write_chunks
  stream_to_temp body = next_tmp (codes "tmp") >>= λ temp. io (fs.create temp) >>= λ _.
      or_clean temp (
        write_chunks temp [] (unwrap_or body []) >>= λ seen.
        io (fs.sync_all temp) >>= λ _. return (temp, seen))

  abbrev pub make_parent : Text → Option Text → Action Unit
  make_parent temp none = return tt
  make_parent temp (some dir) = or_clean temp (io (fs.create_dir_all dir))

  abbrev pub hex_md5 : Text → Text
  hex_md5 bytes = digests.hex_encode (digests.md5 bytes)

  abbrev pub row_of : Text → Text → Text → Option Text → Text → ℕ → ObjectRow
  row_of bucket key bytes content_type metadata_json at_time = record {
    bucket = bucket;
    key = key;
    size = length bytes;
    etag = hex_md5 bytes;
    content_type = some (unwrap_or content_type default_content_type);
    last_modified = at_time;
    metadata = metadata_json;
  }

  -- `Store::put_bytes`: the row is written last.
  unfoldable pub put_bytes :
      Text → Text → Option (List (Option Text)) → Option Text → Text → Action (Text × ℕ)
  unfolding stream_to_temp put_object
  put_bytes bucket key body content_type metadata_json = object_path bucket key >>= λ final_path.
      stream_to_temp body >>= λ (temp, bytes). make_parent temp (fs.parent final_path) >>= λ _.
      or_clean temp (io (fs.rename temp final_path)) >>= λ _. now >>= λ at_time.
      db_call
        (λ db. (tt, put_object (row_of bucket key bytes content_type metadata_json at_time) db))
      >>= λ _. return (hex_md5 bytes, length bytes)

  -- The handlers. A range is checked by s3s against the length: the span, or `InvalidRange`.
  abbrev pub ensure : S3Error → Bool → Action Unit
  ensure e true w = (ok tt, w)
  ensure e false w = (err e, w)

  abbrev pub missing_as : {A : Type 0} → Bool → Action A
  missing_as true = fail no_such_key
  missing_as false = fail no_such_bucket

  -- `missing_object_error`
  abbrev pub missing_object_error : {A : Type 0} → Text → Action A
  missing_object_error bucket = db_read (bucket_exists bucket) >>= missing_as

  unfoldable pub create_bucket_handler : Text → Action Text
  unfolding create_bucket
  create_bucket_handler bucket = io (fs.create_dir_all (bucket_dir bucket)) >>= λ _.
      now >>= λ at_time.
      db_call (create_bucket bucket at_time) >>= ensure bucket_already_owned_by_you >>= λ _.
      return (b'/' ∷ bucket)

  -- `Store::create_bucket_if_missing`
  unfoldable pub create_bucket_if_missing : Text → Action Unit
  unfolding create_bucket
  create_bucket_if_missing name = io (fs.create_dir_all (bucket_dir name)) >>= λ _.
      now >>= λ at_time. db_call (create_bucket name at_time) >>= λ _. return tt

  unfoldable pub put_object_handler :
      Text → Text → Option (List (Option Text)) → Option Text → Text → Action Text
  unfolding put_bytes bucket_exists
  put_object_handler bucket key body content_type metadata =
      db_read (bucket_exists bucket) >>= ensure no_such_bucket >>= λ _.
      put_bytes bucket key body content_type metadata >>= λ (etag_hex, size).
      fire (created bucket key put size etag_hex) >>= λ _. return etag_hex

  abbrev pub or_missing : Text → Option ObjectRow → Action ObjectRow
  or_missing bucket none = missing_object_error bucket
  or_missing bucket (some row) = return row

  abbrev pub Span : Type 0
  Span = ℕ × ℕ

  -- `r.check(full_len)?`, for a range that is given by what its check answers.
  abbrev pub resolve_range : ℕ → Option (ℕ → Option Span) → S3Result (Span × Bool)
  resolve_range full_len none = ok ((0, full_len), false)
  resolve_range full_len (some check) = elim (check full_len) [
    | none ↦ err invalid_range
    | some span ↦ ok (span, true)
  ]

  abbrev pub range_of : ℕ → Option (ℕ → Option Span) → Action (Span × Bool)
  range_of full_len range w = (resolve_range full_len range, w)

  abbrev pub opened : Option Text → World → S3Result Text × World
  opened none w = (err internal_error, w)
  opened (some bytes) w = (ok bytes, w)

  -- `File::open`, and what is read from the file.
  abbrev pub open_file : Text → Action Text
  open_file path w = opened (fs.read path w.disk) w

  abbrev pub content_range_of : Bool → Span → ℕ → Option (ℕ × ℕ × ℕ)
  content_range_of true (start, end_) full_len = some (start, end_ - 1, full_len)
  content_range_of false span full_len = none

  abbrev pub output_of : ObjectRow → Span → Bool → Text → ObjectOutput
  output_of row (start, end_) partial bytes = record {
    body = take (end_ - start) (drop start bytes);
    content_length = end_ - start;
    content_range = content_range_of partial (start, end_) row.size;
    content_type = row.content_type;
    e_tag = row.etag;
    last_modified = row.last_modified;
    metadata = row.metadata;
    partial_content = partial;
  }

  -- `parse_metadata(…)?`: the map that it gives is the stored text, read.
  abbrev pub parse_metadata : Text → Action Unit
  parse_metadata json = ensure internal_error (setup.is_metadata json)

  unfoldable pub get_object_handler : Text → Text → Option (ℕ → Option Span) → Action ObjectOutput
  unfolding get_object bucket_exists
  get_object_handler bucket key range =
      db_read (get_object bucket key) >>= or_missing bucket >>= λ row.
      range_of row.size range >>= λ (span, partial). object_path bucket key >>= λ path.
      open_file path >>= λ bytes.
      parse_metadata row.metadata >>= λ _. return (output_of row span partial bytes)

  abbrev pub ignore_not_found : Removal → World → S3Result Unit × World
  ignore_not_found gone w = (ok tt, w)
  ignore_not_found not_found w = (ok tt, w)
  ignore_not_found other_kind w = (err internal_error, w)

  abbrev pub remove : (fs.Disk → Removal × fs.Disk) → Action Unit
  remove f w = ignore_not_found (f w.disk).0 record w { disk = (f w.disk).1 }

  abbrev pub fire_if : Bool → ObjectEvent → Action Unit
  fire_if true event = fire event
  fire_if false event = return tt

  unfoldable pub delete_object_handler : Text → Text → Action Unit
  unfolding delete_object
  delete_object_handler bucket key = db_call (delete_object bucket key) >>= λ was_there.
      object_path bucket key >>= λ path.
      remove (fs.remove_file path) >>= λ _. fire_if was_there (removed bucket key)

  -- HeadObject answers from the row alone.
  unfoldable pub head_object_handler : Text → Text → Action ObjectRow
  unfolding get_object bucket_exists
  head_object_handler bucket key = db_read (get_object bucket key) >>= or_missing bucket >>= λ row.
      parse_metadata row.metadata >>= λ _. return row

  unfoldable pub head_bucket_handler : Text → Action Unit
  unfolding bucket_exists
  head_bucket_handler bucket = db_read (bucket_exists bucket) >>= ensure no_such_bucket

  abbrev pub outcome_of : DeleteBucketOutcome → Action Unit
  outcome_of missing = fail no_such_bucket
  outcome_of not_empty = fail bucket_not_empty
  outcome_of deleted = return tt

  unfoldable pub delete_bucket_handler : Text → Action Unit
  unfolding try_delete_bucket
  delete_bucket_handler bucket = db_call (try_delete_bucket bucket) >>= outcome_of >>= λ _.
      remove (fs.remove_dir_all (bucket_dir bucket))
