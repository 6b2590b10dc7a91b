-- ===== src/Db/Integrity.antt =====
-- What holds of the tables after every operation: their order, and the references to buckets.
use cubby.Base.{
  ℕ, ◌≡◌, inl, inr, true, Option, none, some, List, [], ◌∷◌, Text, text_eq, ◌+◌, any, is_some,
  All-filter, Bool-cases,
}
use cubby.Db.Table.{upsert-Sorted, upsert-All, filter-Sorted}
use cubby.Db.{
  Db, ObjectRow, MultipartRow, NotificationRow, NotificationDraft, CorsRow, upload_key, part_key,
  notification_key, cors_key, bucket_exists, create_bucket, try_delete_bucket, put_object,
  delete_object, delete_objects, get_multipart, create_multipart, put_part, delete_multipart,
  complete_multipart, greatest_id, insert_bucket_notification, delete_bucket_notification,
  put_bucket_cors, delete_bucket_cors, open_empty,
}
use cubby.Db.Preserve.{
  IsWellFormed, create_bucket-IsWellFormed, drop_bucket-IsWellFormed, uploads-IsWellFormed,
  notifications-IsWellFormed, cors-IsWellFormed, delete_object-IsWellFormed,
  delete_objects-IsWellFormed, delete_multipart-IsWellFormed, put_object-IsWellFormed,
}

-- The operations that change the tables; one that violates a constraint leaves them as they are.
pub data Command : Type 0 where
  creates_bucket : Text → ℕ → Command
  deletes_bucket : Text → Command
  puts_object : ObjectRow → Command
  deletes_object : Text → Text → Command
  deletes_objects : Text → List Text → Command
  creates_multipart : MultipartRow → Command
  puts_part : Text → ℕ → ℕ → Text → Command
  completes_multipart : Text → ObjectRow → Command
  deletes_multipart : Text → Command
  inserts_notification : NotificationDraft → Command
  deletes_notification : Text → ℕ → Command
  puts_cors : Text → Text → Command
  deletes_cors : Text → Command

abbrev pub or_same : Db → Option Db → Db
or_same db none = db
or_same db (some after) = after

abbrev pub or_same_second : Db → Option (ℕ × Db) → Db
or_same_second db none = db
or_same_second db (some (id, after)) = after

abbrev pub execute : Command → Db → Db
execute (creates_bucket name at_time) db = (create_bucket name at_time db).1
execute (deletes_bucket name) db = (try_delete_bucket name db).1
execute (puts_object row) db = put_object row db
execute (deletes_object bucket key) db = (delete_object bucket key db).1
execute (deletes_objects bucket keys) db = (delete_objects bucket keys db).1
execute (creates_multipart row) db = or_same db (create_multipart row db)
execute (puts_part upload_id part_number size etag) db = put_part upload_id part_number size etag db
execute (completes_multipart upload_id row) db = complete_multipart upload_id row db
execute (deletes_multipart upload_id) db = delete_multipart upload_id db
execute (inserts_notification d) db = or_same_second db (insert_bucket_notification d db)
execute (deletes_notification bucket id) db = (delete_bucket_notification bucket id db).1
execute (puts_cors bucket rules_json) db = or_same db (put_bucket_cors bucket rules_json db)
execute (deletes_cors bucket) db = delete_bucket_cors bucket db

try_delete_bucket-IsWellFormed :
    (name : Text) (db : Db) → IsWellFormed db → IsWellFormed (try_delete_bucket name db).1
unfolding try_delete_bucket
try_delete_bucket-IsWellFormed name db w = elim (Bool-cases (bucket_exists name db)) [
  | inr e ↦ rw e w
  | inl e ↦ elim (Bool-cases (any (λ r. text_eq r.bucket name) db.objects)) [
    | inl f ↦ rw (e, f) w
    | inr f ↦ rw (e, f) (drop_bucket-IsWellFormed name db w)
  ]
]

create_multipart-IsWellFormed :
    (row : MultipartRow) (db : Db)
    → IsWellFormed db
    → IsWellFormed (or_same db (create_multipart row db))
unfolding create_multipart
create_multipart-IsWellFormed row db w =
    elim (Bool-cases (is_some (get_multipart row.upload_id db))) [
      | inl e ↦ rw e w
      | inr e ↦ rw e (
          uploads-IsWellFormed _ db.multipart_parts db
            (upsert-Sorted upload_key row db.multipart_uploads w.uploads) w.parts w)
    ]

insert_bucket_notification-IsWellFormed :
    (d : NotificationDraft) (db : Db)
    → IsWellFormed db
    → IsWellFormed (or_same_second db (insert_bucket_notification d db))
unfolding insert_bucket_notification
insert_bucket_notification-IsWellFormed d db w = elim (Bool-cases (bucket_exists d.bucket db)) [
  | inr e ↦ rw e w
  | inl e ↦
      let row : NotificationRow = record {
        id = greatest_id db.bucket_notifications + 1;
        draft = d;
      } in
      rw e (
        notifications-IsWellFormed _ db
          (upsert-Sorted notification_key row db.bucket_notifications w.notifications)
          (upsert-All notification_key (λ r. bucket_exists r.draft.bucket db ≡ true) row
            db.bucket_notifications e w.notified)
          w)
]

put_bucket_cors-IsWellFormed :
    (bucket rules_json : Text) (db : Db)
    → IsWellFormed db
    → IsWellFormed (or_same db (put_bucket_cors bucket rules_json db))
unfolding put_bucket_cors
put_bucket_cors-IsWellFormed bucket rules_json db w = elim (Bool-cases (bucket_exists bucket db)) [
  | inr e ↦ rw e w
  | inl e ↦
      let row : CorsRow = record { bucket = bucket; rules = rules_json } in
      rw e (
        cors-IsWellFormed _ db (upsert-Sorted cors_key row db.bucket_cors w.cors)
          (upsert-All cors_key (λ r. bucket_exists r.bucket db ≡ true) row db.bucket_cors e
            w.configured)
          w)
]

-- Every operation leaves well-formed tables well-formed, whatever its arguments, also when it fails.
pub execute-IsWellFormed : (c : Command) (db : Db) → IsWellFormed db → IsWellFormed (execute c db)
unfolding put_part complete_multipart delete_bucket_notification delete_bucket_cors
execute-IsWellFormed (creates_bucket name at_time) db w =
    create_bucket-IsWellFormed name at_time db w
execute-IsWellFormed (deletes_bucket name) db w = try_delete_bucket-IsWellFormed name db w
execute-IsWellFormed (puts_object row) db w = put_object-IsWellFormed row db w
execute-IsWellFormed (deletes_object bucket key) db w = delete_object-IsWellFormed bucket key db w
execute-IsWellFormed (deletes_objects bucket keys) db w =
    delete_objects-IsWellFormed bucket keys db w
execute-IsWellFormed (creates_multipart row) db w = create_multipart-IsWellFormed row db w
execute-IsWellFormed (puts_part upload_id part_number size etag) db w =
    uploads-IsWellFormed db.multipart_uploads _ db w.uploads
      (upsert-Sorted part_key _ db.multipart_parts w.parts) w
execute-IsWellFormed (completes_multipart upload_id row) db w =
    delete_multipart-IsWellFormed upload_id (put_object row db) (put_object-IsWellFormed row db w)
execute-IsWellFormed (deletes_multipart upload_id) db w =
    delete_multipart-IsWellFormed upload_id db w
execute-IsWellFormed (inserts_notification d) db w = insert_bucket_notification-IsWellFormed d db w
execute-IsWellFormed (deletes_notification bucket id) db w =
    notifications-IsWellFormed _ db
      (filter-Sorted notification_key _ db.bucket_notifications w.notifications)
      (All-filter _ _ db.bucket_notifications w.notified) w
execute-IsWellFormed (puts_cors bucket rules_json) db w =
    put_bucket_cors-IsWellFormed bucket rules_json db w
execute-IsWellFormed (deletes_cors bucket) db w =
    cors-IsWellFormed _ db (filter-Sorted cors_key _ db.bucket_cors w.cors)
      (All-filter _ _ db.bucket_cors w.configured) w

abbrev pub execute_all : List Command → Db → Db
execute_all [] db = db
execute_all (c ∷ commands) db = execute_all commands (execute c db)

-- Whatever operations ran since the database was created, its tables are in order, without duplicate
-- keys, and no notification or CORS configuration outlives its bucket.
pub execute_all-IsWellFormed :
    (commands : List Command) (db : Db) → IsWellFormed db → IsWellFormed (execute_all commands db)
execute_all-IsWellFormed [] db w = w
execute_all-IsWellFormed (c ∷ commands) db w =
    execute_all-IsWellFormed commands (execute c db) (execute-IsWellFormed c db w)

pub open_empty-IsWellFormed : IsWellFormed open_empty
open_empty-IsWellFormed = record {
  buckets = tt;
  objects = tt;
  uploads = tt;
  parts = tt;
  notifications = tt;
  cors = tt;
  notified = tt;
  configured = tt;
}
