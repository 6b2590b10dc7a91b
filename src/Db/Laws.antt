-- ===== src/Db/Laws.antt =====
-- What each operation reads back after another, on every branch.
use cubby.Base.{
  ◌≡◌, ◌⊎◌, refl, sym, ap, ◌∙◌, inl, inr, Bool, true, false, not, ◌&&◌, ◌||◌, Option, none, some,
  List, [], ◌∷◌, Text, map, text_eq, text_eq_iff, text_eq_refl, if◌then◌else◌, filter, any, is_some,
  Bool-cases,
}
use cubby.Db.Table.{
  key_eq, key_eq_refl, select_row, Sorted, select_row-upsert, select_row-delete_row,
}
use cubby.Db.{
  Db, ObjectRow, PartRow, UploadedPart, missing, not_empty, deleted, bucket_key, object_key,
  upload_key, bucket_exists, drop_bucket, try_delete_bucket, put_object, get_object, delete_object,
  delete_objects, onto_removed, get_multipart, all_parts, delete_multipart, complete_multipart,
}

-- A put object is read back under its own bucket and key, and every other object is as before.
pub get_object-put_object :
    (bucket key : Text) (row : ObjectRow) (db : Db)
    → Sorted object_key db.objects
    → get_object bucket key (put_object row db) ≡ (
        if text_eq row.bucket bucket && text_eq row.key key
        then some row
        else get_object bucket key db)
unfolding get_object put_object key_eq
get_object-put_object bucket key row db h =
    select_row-upsert object_key (bucket, key) row db.objects h

-- After a delete the object is gone, every other one is as before, and the answer is whether there
-- was one.
pub get_object-delete_object :
    (bucket key b k : Text) (db : Db)
    → (get_object b k (delete_object bucket key db).1
        ≡ (if text_eq bucket b && text_eq key k then none else get_object b k db))
      × ((delete_object bucket key db).0 ≡ is_some (get_object bucket key db))
unfolding get_object delete_object key_eq
get_object-delete_object bucket key b k db =
    (select_row-delete_row object_key (b, k) (bucket, key) db.objects, refl)

onto_removed-db : (key : Text) (b : Bool) (r : List Text × Db) → (onto_removed key b r).1 ≡ r.1
onto_removed-db key true (removed, db) = refl
onto_removed-db key false (removed, db) = refl

nothing_listed : (a : Bool) (o : Option ObjectRow) → o ≡ (if a && false then none else o)
nothing_listed true o = refl
nothing_listed false o = refl

nested_if :
    (a x y : Bool) (o : Option ObjectRow)
    → (if a && y then none else if a && x then none else o) ≡ (if a && (x || y) then none else o)
nested_if true true true o = refl
nested_if true true false o = refl
nested_if true false true o = refl
nested_if true false false o = refl
nested_if false x y o = refl

-- After `delete_objects` every listed key of the bucket is gone, and every other object is as before.
pub get_object-delete_objects :
    (bucket : Text) (keys : List Text) (b k : Text) (db : Db)
    → get_object b k (delete_objects bucket keys db).1
      ≡ (if text_eq bucket b && any (λ key. text_eq key k) keys then none else get_object b k db)
unfolding delete_objects
get_object-delete_objects bucket [] b k db = nothing_listed (text_eq bucket b) (get_object b k db)
get_object-delete_objects bucket (key ∷ keys) b k db =
    let after = (delete_object bucket key db).1 in
    ap (λ d. get_object b k d) (onto_removed-db key _ (delete_objects bucket keys after))
    ∙ get_object-delete_objects bucket keys b k after
    ∙ rw (get_object-delete_object bucket key b k db).0 (
        nested_if (text_eq bucket b) (text_eq key k) (any (λ key. text_eq key k) keys)
          (get_object b k db))

-- Whether a bucket holds an object, in the two ways of reading it.
holds_object :
    (name : Text) (objects : List ObjectRow)
    → any (λ r. text_eq r.bucket name) objects ≡ true
    → (row : ObjectRow) × (select_row object_key (name, row.key) objects ≡ some row)
unfolding key_eq
holds_object name [] h = cc
holds_object name (r ∷ rows) h = elim (Bool-cases (text_eq r.bucket name)) [
  | inl e ↦ (r, rw (e, text_eq_refl r.key) refl)
  | inr e ↦ let (row, found) = holds_object name rows (rw e at h) in (row, rw e found)
]

holds_none :
    (name : Text) (objects : List ObjectRow) (key : Text)
    → any (λ r. text_eq r.bucket name) objects ≡ false
    → select_row object_key (name, key) objects ≡ none
unfolding key_eq
holds_none name [] key h = refl
holds_none name (r ∷ rows) key h = elim (Bool-cases (text_eq r.bucket name)) [
  | inl e ↦ absurd (cc (rw e at h))
  | inr e ↦ rw e (holds_none name rows key (rw e at h))
]

dropped : (name : Text) (db : Db) → bucket_exists name (drop_bucket name db) ≡ false
unfolding bucket_exists
dropped name db =
    rw (select_row-delete_row bucket_key (name, []) (name, []) db.buckets, key_eq_refl (name, []))
      refl

-- A deletion of a bucket is one of three things: the bucket is not there, the answer is `missing` and the
-- tables stay as they are; it is there and a lookup finds an object in it, the answer is `not_empty` and
-- the tables stay as they are; it is there and no lookup finds an object in it, the answer is `deleted`
-- and the tables are those with the bucket dropped, in which it is not there.
pub try_delete_bucket-cases :
    (name : Text) (db : Db)
    → ((try_delete_bucket name db ≡ (missing, db)) × (bucket_exists name db ≡ false))
      ⊎ (((try_delete_bucket name db ≡ (not_empty, db))
            × (bucket_exists name db ≡ true)
            × ((row : ObjectRow) × (get_object name row.key db ≡ some row)))
          ⊎ ((try_delete_bucket name db ≡ (deleted, drop_bucket name db))
              × (bucket_exists name db ≡ true)
              × (bucket_exists name (drop_bucket name db) ≡ false)
              × ((key : Text) → get_object name key db ≡ none)))
unfolding try_delete_bucket get_object
try_delete_bucket-cases name db = elim (Bool-cases (bucket_exists name db)) [
  | inr e ↦ inl (rw e refl, e)
  | inl e ↦ elim (Bool-cases (any (λ r. text_eq r.bucket name) db.objects)) [
    | inl full ↦ inr (inl (rw (e, full) refl, e, holds_object name db.objects full))
    | inr bare ↦
        inr
          (inr (rw (e, bare) refl, e, dropped name db, λ key. holds_none name db.objects key bare))
  ]
]

no_parts : (b : Bool) → ◌≡◌ {A = List PartRow} [] (if b then [] else [])
no_parts true = refl
no_parts false = refl

parts_left :
    (upload_id id : Text) (parts : List UploadedPart)
    → map
        (λ r. r.part)
        (filter
          (λ r. text_eq r.upload_id id)
          (filter (λ r. not (text_eq r.upload_id upload_id)) parts))
      ≡ (if text_eq upload_id id
          then []
          else map (λ r. r.part) (filter (λ r. text_eq r.upload_id id) parts))
parts_left upload_id id [] = no_parts (text_eq upload_id id)
parts_left upload_id id (r ∷ parts) = elim (Bool-cases (text_eq r.upload_id upload_id)) [
  | inl gone ↦ elim (Bool-cases (text_eq upload_id id)) [
    | inl same ↦ rw (gone, same) (parts_left upload_id id parts ∙ rw same refl)
    | inr other ↦
        let not_id : text_eq r.upload_id id ≡ false =
          rw ((text_eq_iff r.upload_id upload_id).0 gone) other in
        rw (gone, other, not_id) (parts_left upload_id id parts ∙ rw other refl)
  ]
  | inr kept ↦ elim (Bool-cases (text_eq r.upload_id id)) [
    | inl found ↦ elim (Bool-cases (text_eq upload_id id)) [
      | inl same ↦
          let q = (text_eq_iff r.upload_id id).0 found ∙ sym ((text_eq_iff upload_id id).0 same) in
          absurd (cc (rw (q, text_eq_refl upload_id) at kept))
      | inr other ↦
          rw (kept, found, other)
            (ap (λ rest. r.part ∷ rest) (parts_left upload_id id parts ∙ rw other refl))
    ]
    | inr missed ↦ rw (kept, missed) (parts_left upload_id id parts)
  ]
]

and_true : (b : Bool) → (b && true) ≡ b
and_true true = refl
and_true false = refl

-- Completing an upload leaves the object, and neither the upload nor a part of it; other objects and
-- uploads are as before.
pub complete_multipart-reads :
    (upload_id : Text) (row : ObjectRow) (db : Db)
    → Sorted object_key db.objects
    → let after = complete_multipart upload_id row db in
      (get_object row.bucket row.key after ≡ some row)
      × ((b k : Text)
          → (text_eq row.bucket b && text_eq row.key k) ≡ false
          → get_object b k after ≡ get_object b k db)
      × ((id : Text)
          → get_multipart id after ≡ (if text_eq upload_id id then none else get_multipart id db))
      × ((id : Text) → all_parts id after ≡ (if text_eq upload_id id then [] else all_parts id db))
unfolding complete_multipart delete_multipart put_object get_object get_multipart all_parts key_eq
    text_eq
complete_multipart-reads upload_id row db h =
    let reads = λ (b k : Text). select_row-upsert object_key (b, k) row db.objects h in
    (
      reads row.bucket row.key ∙ rw (text_eq_refl row.bucket, text_eq_refl row.key) refl,
      (λ b k other. reads b k ∙ rw other refl),
      (λ id.
          select_row-delete_row upload_key (id, []) (upload_id, []) db.multipart_uploads
          ∙ ap (λ t. if t then none else get_multipart id db) (and_true (text_eq upload_id id))),
      (λ id. parts_left upload_id id db.multipart_parts),
    )
