-- ===== src/Db/Preserve.antt =====
-- The tables in order and their references to buckets, and that each single change keeps them.
use cubby.Base.{
  ℕ, ◌≡◌, refl, sym, ◌∙◌, inl, inr, Bool, true, false, not, List, [], ◌∷◌, Text, text_eq,
  text_eq_iff, filter, is_some, All, Bool-cases,
}
use cubby.Db.Table.{
  key_eq, upsert, select_row, delete_row, Sorted, upsert-Sorted, filter-Sorted, select_row-upsert,
  select_row-delete_row,
}
use cubby.Db.{
  Db, ObjectRow, MultipartRow, NotificationRow, CorsRow, UploadedPart, BucketRow, bucket_key,
  object_key, upload_key, part_key, notification_key, cors_key, bucket_exists, create_bucket,
  drop_bucket, put_object, delete_object, delete_objects, onto_removed, delete_multipart,
}

-- Each table is in the order of its primary keys, no key twice, and each notification and each CORS
-- configuration belongs to a bucket that is there.
pub record IsWellFormed (db : Db) : Type 0 where
  pub buckets : Sorted bucket_key db.buckets
  pub objects : Sorted object_key db.objects
  pub uploads : Sorted upload_key db.multipart_uploads
  pub parts : Sorted part_key db.multipart_parts
  pub notifications : Sorted notification_key db.bucket_notifications
  pub cors : Sorted cors_key db.bucket_cors
  pub notified : All (λ r. bucket_exists r.draft.bucket db ≡ true) db.bucket_notifications
  pub configured : All (λ r. bucket_exists r.bucket db ≡ true) db.bucket_cors

All-implies {ℓ} :
    {A : Type ℓ} {P Q : A → Type 0} → ((a : A) → P a → Q a) → (xs : List A) → All P xs → All Q xs
All-implies f [] h = tt
All-implies f (x ∷ xs) (p, h) = (f x p, All-implies f xs h)

-- A bucket that is there stays there when another is put or deleted.
still_there :
    (row : BucketRow) (name : Text) (buckets : List BucketRow)
    → Sorted bucket_key buckets
    → is_some (select_row bucket_key (name, []) buckets) ≡ true
    → is_some (select_row bucket_key (name, []) (upsert bucket_key row buckets)) ≡ true
still_there row name buckets h e =
    rw (select_row-upsert bucket_key (name, []) row buckets h)
      (elim (Bool-cases (key_eq (bucket_key row) (name, []))) [
        | inl f ↦ rw f refl
        | inr f ↦ rw f e
      ])

pub create_bucket-IsWellFormed :
    (name : Text) (at_time : ℕ) (db : Db)
    → IsWellFormed db
    → IsWellFormed (create_bucket name at_time db).1
unfolding create_bucket bucket_exists
create_bucket-IsWellFormed name at_time db w =
    elim (Bool-cases (is_some (select_row bucket_key (name, []) db.buckets))) [
      | inl e ↦ rw e w
      | inr e ↦
          let row : BucketRow = record { name = name; created_at = at_time } in
          rw e record {
            buckets = upsert-Sorted bucket_key row db.buckets w.buckets;
            objects = w.objects;
            uploads = w.uploads;
            parts = w.parts;
            notifications = w.notifications;
            cors = w.cors;
            notified =
                All-implies (λ r h. still_there row r.draft.bucket db.buckets w.buckets h)
                  db.bucket_notifications w.notified;
            configured =
                All-implies (λ r h. still_there row r.bucket db.buckets w.buckets h) db.bucket_cors
                  w.configured;
          }
    ]

text_eq_sym : (a b : Text) → text_eq a b ≡ text_eq b a
text_eq_sym a b = elim (Bool-cases (text_eq a b)) [
  | inl e ↦ let same = (text_eq_iff a b).0 e in rw same refl
  | inr e ↦ elim (Bool-cases (text_eq b a)) [
    | inl f ↦ let same = (text_eq_iff b a).0 f in rw same refl
    | inr f ↦ e ∙ sym f
  ]
]

-- What is left after the cascade does not refer to the dropped bucket.
not_dropped :
    (name bucket : Text) (buckets : List BucketRow)
    → text_eq bucket name ≡ false
    → is_some (select_row bucket_key (bucket, []) buckets) ≡ true
    → is_some (select_row bucket_key (bucket, []) (delete_row bucket_key (name, []) buckets)) ≡ true
unfolding key_eq
not_dropped name bucket buckets other h =
    rw
      (
        select_row-delete_row bucket_key (bucket, []) (name, []) buckets,
        text_eq_sym name bucket,
        other,
      )
      h

kept_other {ℓ} :
    {A : Type ℓ} (bucket_of : A → Text) (name : Text) (buckets : List BucketRow) (rows : List A)
    → All (λ r. is_some (select_row bucket_key (bucket_of r, []) buckets) ≡ true) rows
    → All
        (λ r.
          is_some
            (select_row bucket_key (bucket_of r, []) (delete_row bucket_key (name, []) buckets))
          ≡ true)
        (filter (λ r. not (text_eq (bucket_of r) name)) rows)
kept_other bucket_of name buckets [] h = tt
kept_other bucket_of name buckets (r ∷ rows) (p, h) =
    elim (Bool-cases (text_eq (bucket_of r) name)) [
      | inl e ↦ rw e (kept_other bucket_of name buckets rows h)
      | inr e ↦
          rw e
            (not_dropped name (bucket_of r) buckets e p, kept_other bucket_of name buckets rows h)
    ]

pub drop_bucket-IsWellFormed :
    (name : Text) (db : Db) → IsWellFormed db → IsWellFormed (drop_bucket name db)
unfolding bucket_exists
drop_bucket-IsWellFormed name db w = record {
  buckets = filter-Sorted bucket_key _ db.buckets w.buckets;
  objects = w.objects;
  uploads = w.uploads;
  parts = w.parts;
  notifications = filter-Sorted notification_key _ db.bucket_notifications w.notifications;
  cors = filter-Sorted cors_key _ db.bucket_cors w.cors;
  notified = kept_other (λ r. r.draft.bucket) name db.buckets db.bucket_notifications w.notified;
  configured = kept_other (λ r. r.bucket) name db.buckets db.bucket_cors w.configured;
}

objects-IsWellFormed :
    (objects : List ObjectRow) (db : Db)
    → Sorted object_key objects
    → IsWellFormed db
    → IsWellFormed record db { objects = objects }
unfolding bucket_exists
objects-IsWellFormed objects db h w = record {
  buckets = w.buckets;
  objects = h;
  uploads = w.uploads;
  parts = w.parts;
  notifications = w.notifications;
  cors = w.cors;
  notified = w.notified;
  configured = w.configured;
}

pub uploads-IsWellFormed :
    (uploads : List MultipartRow) (parts : List UploadedPart) (db : Db)
    → Sorted upload_key uploads
    → Sorted part_key parts
    → IsWellFormed db
    → IsWellFormed record db { multipart_uploads = uploads; multipart_parts = parts }
unfolding bucket_exists
uploads-IsWellFormed uploads parts db h k w = record {
  buckets = w.buckets;
  objects = w.objects;
  uploads = h;
  parts = k;
  notifications = w.notifications;
  cors = w.cors;
  notified = w.notified;
  configured = w.configured;
}

pub notifications-IsWellFormed :
    (rows : List NotificationRow) (db : Db)
    → Sorted notification_key rows
    → All (λ r. bucket_exists r.draft.bucket db ≡ true) rows
    → IsWellFormed db
    → IsWellFormed record db { bucket_notifications = rows }
unfolding bucket_exists
notifications-IsWellFormed rows db h k w = record {
  buckets = w.buckets;
  objects = w.objects;
  uploads = w.uploads;
  parts = w.parts;
  notifications = h;
  cors = w.cors;
  notified = k;
  configured = w.configured;
}

pub cors-IsWellFormed :
    (rows : List CorsRow) (db : Db)
    → Sorted cors_key rows
    → All (λ r. bucket_exists r.bucket db ≡ true) rows
    → IsWellFormed db
    → IsWellFormed record db { bucket_cors = rows }
unfolding bucket_exists
cors-IsWellFormed rows db h k w = record {
  buckets = w.buckets;
  objects = w.objects;
  uploads = w.uploads;
  parts = w.parts;
  notifications = w.notifications;
  cors = h;
  notified = w.notified;
  configured = k;
}

onto_removed-second : (key : Text) (b : Bool) (r : List Text × Db) → (onto_removed key b r).1 ≡ r.1
onto_removed-second key true (removed, db) = refl
onto_removed-second key false (removed, db) = refl

pub delete_object-IsWellFormed :
    (bucket key : Text) (db : Db) → IsWellFormed db → IsWellFormed (delete_object bucket key db).1
unfolding delete_object
delete_object-IsWellFormed bucket key db w =
    objects-IsWellFormed (delete_row object_key (bucket, key) db.objects) db
      (filter-Sorted object_key _ db.objects w.objects) w

pub delete_objects-IsWellFormed :
    (bucket : Text) (keys : List Text) (db : Db)
    → IsWellFormed db
    → IsWellFormed (delete_objects bucket keys db).1
unfolding delete_objects
delete_objects-IsWellFormed bucket [] db w = w
delete_objects-IsWellFormed bucket (key ∷ keys) db w =
    rw
      (onto_removed-second key (delete_object bucket key db).0
        (delete_objects bucket keys (delete_object bucket key db).1))
      (delete_objects-IsWellFormed bucket keys (delete_object bucket key db).1
        (delete_object-IsWellFormed bucket key db w))

pub delete_multipart-IsWellFormed :
    (upload_id : Text) (db : Db) → IsWellFormed db → IsWellFormed (delete_multipart upload_id db)
unfolding delete_multipart
delete_multipart-IsWellFormed upload_id db w =
    uploads-IsWellFormed _ _ db (filter-Sorted upload_key _ db.multipart_uploads w.uploads)
      (filter-Sorted part_key _ db.multipart_parts w.parts) w

pub put_object-IsWellFormed :
    (row : ObjectRow) (db : Db) → IsWellFormed db → IsWellFormed (put_object row db)
unfolding put_object
put_object-IsWellFormed row db w =
    objects-IsWellFormed _ db (upsert-Sorted object_key row db.objects w.objects) w
