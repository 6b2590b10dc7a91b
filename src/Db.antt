-- ===== src/Db.antt =====
-- src/db.rs: the metadata store. Each SQL statement is read as what it does to the tables, which are
-- lists of rows in the order of their primary keys; `none` is an error of SQLite for a violated
-- constraint. The mutex of the connection makes each operation one step.
pub mod Table
pub mod Laws
pub mod Preserve
pub mod Integrity
pub mod Seek
pub mod Tests
use cubby.Base.{
  ℕ, zero, suc, ◌+◌, max, ◌≡◌, Bool, true, false, not, ◌&&◌, ◌||◌, Option, none, some, List, [],
  ◌∷◌, ◌++◌, Text, map, text_eq, text_ltb, text_leb, if◌then◌else◌, find, filter, any, is_some,
  is_empty, take, length, ltb, ◌==◌, unwrap_or,
}
use cubby.Listing.{successor}
use cubby.Db.Table.{Key, upsert, select_row, delete_row}

pub record BucketRow : Type 0 where
  pub name : Text
  pub created_at : ℕ

pub record BucketStats : Type 0 where
  pub name : Text
  pub created_at : ℕ
  pub object_count : ℕ
  pub total_size : ℕ

pub record ObjectRow : Type 0 where
  pub bucket : Text
  pub key : Text
  pub size : ℕ
  pub etag : Text
  pub content_type : Option Text
  pub last_modified : ℕ
  pub metadata : Text

pub record MultipartRow : Type 0 where
  pub upload_id : Text
  pub bucket : Text
  pub key : Text
  pub content_type : Option Text
  pub metadata : Text
  pub started_at : ℕ

pub record PartRow : Type 0 where
  pub part_number : ℕ
  pub size : ℕ
  pub etag : Text

pub record NotificationDraft : Type 0 where
  pub bucket : Text
  pub url : Text
  pub events : List Text
  pub prefix : Option Text
  pub suffix : Option Text
  pub format : Text
  pub timeout_ms : ℕ
  pub created_at : ℕ

pub record NotificationRow : Type 0 where
  pub id : ℕ
  pub draft : NotificationDraft

pub data DeleteBucketOutcome : Type 0 where
  missing not_empty deleted : DeleteBucketOutcome

-- A row of `multipart_parts`, whose `upload_id` a `PartRow` leaves out, and one of `bucket_cors`.
pub record UploadedPart : Type 0 where
  pub upload_id : Text
  pub part : PartRow

pub record CorsRow : Type 0 where
  pub bucket : Text
  pub rules : Text

-- The tables of `SCHEMA_V0`, and their primary keys.
pub record Db : Type 0 where
  pub buckets : List BucketRow
  pub objects : List ObjectRow
  pub multipart_uploads : List MultipartRow
  pub multipart_parts : List UploadedPart
  pub bucket_notifications : List NotificationRow
  pub bucket_cors : List CorsRow

abbrev pub open_empty : Db
open_empty = record {
  buckets = [];
  objects = [];
  multipart_uploads = [];
  multipart_parts = [];
  bucket_notifications = [];
  bucket_cors = [];
}

abbrev pub bucket_key : BucketRow → Key
bucket_key row = (row.name, [])

abbrev pub object_key : ObjectRow → Key
object_key row = (row.bucket, row.key)

abbrev pub upload_key : MultipartRow → Key
upload_key row = (row.upload_id, [])

abbrev pub part_key : UploadedPart → Key
part_key row = (row.upload_id, row.part.part_number ∷ [])

abbrev pub notification_key : NotificationRow → Key
notification_key row = (row.id ∷ [], [])

abbrev pub cors_key : CorsRow → Key
cors_key row = (row.bucket, [])

-- Buckets.
unfoldable pub bucket_exists : Text → Db → Bool
bucket_exists name db = is_some (select_row bucket_key (name, []) db.buckets)

unfoldable pub create_bucket : Text → ℕ → Db → Bool × Db
unfolding bucket_exists upsert
create_bucket name created_at db = if bucket_exists name db then (false, db) else (
  true,
  record db {
    buckets = upsert bucket_key record { name = name; created_at = created_at } db.buckets;
  },
)

-- `DELETE FROM buckets`, with the cascade to the two tables that reference it.
abbrev pub drop_bucket : Text → Db → Db
drop_bucket name db = record db {
  buckets = delete_row bucket_key (name, []) db.buckets;
  bucket_notifications = filter (λ r. not (text_eq r.draft.bucket name)) db.bucket_notifications;
  bucket_cors = filter (λ r. not (text_eq r.bucket name)) db.bucket_cors;
}

unfoldable pub try_delete_bucket : Text → Db → DeleteBucketOutcome × Db
unfolding bucket_exists
try_delete_bucket name db =
    if not (bucket_exists name db)
    then (missing, db)
    else if any (λ r. text_eq r.bucket name) db.objects
    then (not_empty, db)
    else (deleted, drop_bucket name db)

-- Objects.
unfoldable pub put_object : ObjectRow → Db → Db
unfolding upsert
put_object row db = record db { objects = upsert object_key row db.objects }

unfoldable pub get_object : Text → Text → Db → Option ObjectRow
get_object bucket key db = select_row object_key (bucket, key) db.objects

unfoldable pub delete_object : Text → Text → Db → Bool × Db
unfolding get_object
delete_object bucket key db = (
  is_some (get_object bucket key db),
  record db { objects = delete_row object_key (bucket, key) db.objects },
)

-- The transaction of `delete_objects`: the keys that were removed, in the order of the input.
abbrev pub onto_removed : Text → Bool → List Text × Db → List Text × Db
onto_removed key true (removed, db) = (key ∷ removed, db)
onto_removed key false (removed, db) = (removed, db)

unfoldable pub delete_objects : Text → List Text → Db → List Text × Db
unfolding delete_object
delete_objects bucket [] db = ([], db)
delete_objects bucket (key ∷ keys) db =
    onto_removed key (delete_object bucket key db).0
      (delete_objects bucket keys (delete_object bucket key db).1)

-- The lower bound is the later of the cursor and the prefix; no upper bound scans to the end.
abbrev pub lower_bound : Text → Option Text → Text
lower_bound prefix none = prefix
lower_bound prefix (some f) = if text_ltb prefix f then f else prefix

abbrev pub below_upper : Option Text → Text → Bool
below_upper none key = true
below_upper (some upper) key = text_ltb key upper

unfoldable pub list_objects_page : Text → Text → Db → Option Text → ℕ → List ObjectRow
unfolding successor
list_objects_page bucket prefix db from limit =
    if limit == 0
    then []
    else take limit (
        filter
          (λ r.
            text_eq r.bucket bucket
            && text_leb (lower_bound prefix from) r.key
            && below_upper (successor prefix) r.key)
          db.objects)

abbrev pub count_buckets : Db → ℕ
count_buckets db = length db.buckets

abbrev pub count_objects : Db → ℕ
count_objects db = length db.objects

abbrev pub list_buckets : Db → List BucketRow
list_buckets db = db.buckets

abbrev pub sum_sizes : List ObjectRow → ℕ
sum_sizes [] = 0
sum_sizes (r ∷ rows) = r.size + sum_sizes rows

abbrev pub stats_of : List ObjectRow → BucketRow → BucketStats
stats_of objects b =
    let rows = filter (λ r. text_eq r.bucket b.name) objects in
    record {
      name = b.name;
      created_at = b.created_at;
      object_count = length rows;
      total_size = sum_sizes rows;
    }

abbrev pub list_buckets_with_stats : Db → List BucketStats
list_buckets_with_stats db = map (stats_of db.objects) db.buckets

-- Multipart uploads. `INSERT` alone fails on an id that is there.
unfoldable pub get_multipart : Text → Db → Option MultipartRow
get_multipart upload_id db = select_row upload_key (upload_id, []) db.multipart_uploads

unfoldable pub create_multipart : MultipartRow → Db → Option Db
unfolding get_multipart upsert
create_multipart row db =
    if is_some (get_multipart row.upload_id db)
    then none
    else some record db { multipart_uploads = upsert upload_key row db.multipart_uploads }

unfoldable pub put_part : Text → ℕ → ℕ → Text → Db → Db
unfolding upsert
put_part upload_id part_number size etag db = record db {
  multipart_parts =
      upsert part_key
        record {
          upload_id = upload_id;
          part = record { part_number = part_number; size = size; etag = etag };
        }
        db.multipart_parts;
}

unfoldable pub all_parts : Text → Db → List PartRow
all_parts upload_id db =
    map (λ r. r.part) (filter (λ r. text_eq r.upload_id upload_id) db.multipart_parts)

unfoldable pub list_parts : Text → Option ℕ → ℕ → Db → List PartRow
list_parts upload_id after limit db =
    if limit == 0
    then []
    else take limit (
        map (λ r. r.part)
          (filter (λ r. text_eq r.upload_id upload_id && ltb (unwrap_or after 0) r.part.part_number)
            db.multipart_parts))

-- The two `DELETE`s that end an upload.
unfoldable pub delete_multipart : Text → Db → Db
delete_multipart upload_id db = record db {
  multipart_parts = filter (λ r. not (text_eq r.upload_id upload_id)) db.multipart_parts;
  multipart_uploads = delete_row upload_key (upload_id, []) db.multipart_uploads;
}

unfoldable pub complete_multipart : Text → ObjectRow → Db → Db
unfolding delete_multipart put_object
complete_multipart upload_id object db = delete_multipart upload_id (put_object object db)

-- Notifications: a new row's id is one more than the greatest. Foreign keys are on, so the bucket
-- has to be there.
abbrev pub greatest_id : List NotificationRow → ℕ
greatest_id [] = 0
greatest_id (r ∷ rows) = max r.id (greatest_id rows)

unfoldable pub insert_bucket_notification : NotificationDraft → Db → Option (ℕ × Db)
unfolding bucket_exists upsert
insert_bucket_notification d db =
    let id = greatest_id db.bucket_notifications + 1 in
    if not (bucket_exists d.bucket db)
    then none
    else some (
      id,
      record db {
        bucket_notifications =
            upsert notification_key record { id = id; draft = d } db.bucket_notifications;
      },
    )

unfoldable pub list_bucket_notifications : Text → Db → List NotificationRow
list_bucket_notifications bucket db =
    filter (λ r. text_eq r.draft.bucket bucket) db.bucket_notifications

unfoldable pub delete_bucket_notification : Text → ℕ → Db → Bool × Db
delete_bucket_notification bucket id db =
    let is_it = λ (r : NotificationRow). text_eq r.draft.bucket bucket && r.id == id in
    (
      any is_it db.bucket_notifications,
      record db { bucket_notifications = filter (λ r. not (is_it r)) db.bucket_notifications },
    )

-- The CORS configuration of a bucket.
unfoldable pub put_bucket_cors : Text → Text → Db → Option Db
unfolding bucket_exists upsert
put_bucket_cors bucket rules_json db =
    if not (bucket_exists bucket db)
    then none
    else some record db {
      bucket_cors = upsert cors_key record { bucket = bucket; rules = rules_json } db.bucket_cors;
    }

unfoldable pub get_bucket_cors : Text → Db → Option Text
get_bucket_cors bucket db = elim (select_row cors_key (bucket, []) db.bucket_cors) [
  | none ↦ none
  | some r ↦ some r.rules
]

unfoldable pub delete_bucket_cors : Text → Db → Db
delete_bucket_cors bucket db = record db {
  bucket_cors = filter (λ r. not (text_eq r.bucket bucket)) db.bucket_cors;
}
