-- ===== src/Store/Requests/Failures.antt =====
-- What a request that writes its row last leaves when it answers an error.
use cubby.Base.{
  ℕ, ◌≡◌, refl, inl, inr, Bool, true, false, Option, List, [], ◌∷◌, Text, map, Bool-cases,
}
use cubby.Db.{Db, bucket_exists, create_bucket, delete_bucket_cors}
use cubby.Store.{
  S3Error, S3Result, invalid_request, bucket_already_owned_by_you, Setup, World, Action, ◌>>=◌,
  return, after, answered, db_call, ensure, bucket_dir, create_bucket_handler, put_object_handler,
}
use cubby.Store.Atomic.{
  Same, Atomic, bind-Atomic, then_ok-Atomic, io-Keeps, now-Keeps, ensure-Keeps,
}
use cubby.Store.Objects.{put_object_handler-error}
use cubby.Store.CorsConfig.{
  RulesJson, DtoRule, domain_rule_from_dto, is_none, put_bucket_cors_handler,
  delete_bucket_cors_handler,
}
use cubby.Cors.{validate}
use cubby.Store.Requests.{Request, serve, writes_last}
use cubby.Store.Requests.FailedWrites.{
  db_try-Atomic, checked, copy_object_handler-Atomic, upload_part_handler-Atomic,
  create_multipart_upload_handler-Atomic, complete_multipart_upload_handler-Atomic,
}

module _ (setup : Setup) where
  open setup use {fs, digests}

  -- A bucket that is there already is not created, and nothing changes.
  create_bucket-same :
      (bucket : Text) (at_time : ℕ) (db : Db)
      → (create_bucket bucket at_time db).0 ≡ false
      → (create_bucket bucket at_time db).1 ≡ db
  unfolding create_bucket
  create_bucket-same bucket at_time db h = elim (Bool-cases (bucket_exists bucket db)) [
    | inl there ↦ rw there refl
    | inr missing ↦ absurd (cc (rw missing at h))
  ]

  created_or_not :
      (faults : List Bool) (r : Bool × Db) (w : World setup) (e : S3Error)
      → (r.0 ≡ false → r.1 ≡ w.db)
      → (after setup
          (answered setup faults r w).0
          (answered setup faults r w).1
          (ensure setup bucket_already_owned_by_you)).0
        ≡ S3Result.err e
      → Same setup w
          (after setup
            (answered setup faults r w).0
            (answered setup faults r w).1
            (ensure setup bucket_already_owned_by_you)).1
  created_or_not [] (true, db) w e h q = cc
  created_or_not [] (false, db) w e h q = record { db = h refl; fired = refl }
  created_or_not (true ∷ faults) (b, db) w e h q = record { db = refl; fired = refl }
  created_or_not (false ∷ faults) (true, db) w e h q = cc
  created_or_not (false ∷ faults) (false, db) w e h q = record { db = h refl; fired = refl }

  row_created-Atomic :
      (bucket : Text) (at_time : ℕ)
      → Atomic setup (
          ◌>>=◌ setup
            (db_call setup (create_bucket bucket at_time))
            (ensure setup bucket_already_owned_by_you))
  unfolding Atomic ◌>>=◌
  row_created-Atomic bucket at_time w e q =
      created_or_not w.db_faults (create_bucket bucket at_time w.db) w e
        (create_bucket-same bucket at_time w.db) q

  create_bucket_handler-Atomic : (bucket : Text) → Atomic setup (create_bucket_handler setup bucket)
  unfolding create_bucket_handler
  create_bucket_handler-Atomic bucket =
      bind-Atomic setup _ _ (io-Keeps setup (fs.create_dir_all (bucket_dir setup bucket))) (λ _.
        bind-Atomic setup _ _ (now-Keeps setup)
          (λ at_time. then_ok-Atomic setup _ _ (row_created-Atomic bucket at_time) (λ _ w e q. cc)))

  put_object_handler-Atomic :
      (bucket key : Text) (body : Option (List (Option Text))) (content_type : Option Text)
      (metadata : Text)
      → Atomic setup (put_object_handler setup bucket key body content_type metadata)
  unfolding Atomic
  put_object_handler-Atomic bucket key body content_type metadata w e q =
      let (db, fired) =
        put_object_handler-error setup bucket key body content_type metadata w e q in
      record { db = db; fired = fired }

  single_write :
      (faults : List Bool) (db : Db) (w : World setup) (e : S3Error)
      → (answered setup faults (tt, db) w).0 ≡ S3Result.err e
      → Same setup w (answered setup faults (tt, db) w).1
  single_write [] db w e q = cc
  single_write (true ∷ faults) db w e q = record { db = refl; fired = refl }
  single_write (false ∷ faults) db w e q = cc

  delete_bucket_cors_handler-Atomic :
      (json : RulesJson) (bucket : Text)
      → Atomic setup (delete_bucket_cors_handler setup json bucket)
  unfolding delete_bucket_cors_handler Atomic
  delete_bucket_cors_handler-Atomic json bucket w e q =
      single_write w.db_faults (delete_bucket_cors bucket w.db) w e q

  put_bucket_cors_handler-Atomic :
      (json : RulesJson) (bucket : Text) (rules : List DtoRule)
      → Atomic setup (put_bucket_cors_handler setup json bucket rules)
  unfolding put_bucket_cors_handler
  put_bucket_cors_handler-Atomic json bucket rules = checked setup bucket _ (
      bind-Atomic setup _ _
        (ensure-Keeps setup invalid_request (is_none (validate (map domain_rule_from_dto rules))))
        (λ _. db_try-Atomic setup _))

  -- The answer left out.
  quietly :
      {A : Type 0} (m : Action setup A)
      → Atomic setup m
      → Atomic setup (◌>>=◌ setup m (λ _. return setup tt))
  quietly m h = then_ok-Atomic setup m _ h (λ _ w e q. cc)

  serve-Atomic :
      (json : RulesJson) (request : Request)
      → writes_last request ≡ true
      → Atomic setup (serve setup json request)
  serve-Atomic json (Request.create_bucket bucket) h =
      quietly _ (create_bucket_handler-Atomic bucket)
  serve-Atomic json (Request.delete_bucket bucket) h = cc
  serve-Atomic json (Request.put_object bucket key body content_type metadata) h =
      quietly _ (put_object_handler-Atomic bucket key body content_type metadata)
  serve-Atomic json (Request.copy_object input) h =
      quietly _ (copy_object_handler-Atomic setup input)
  serve-Atomic json (Request.delete_object bucket key) h = cc
  serve-Atomic json (Request.delete_objects bucket keys quiet) h = cc
  serve-Atomic json (Request.create_multipart_upload bucket key content_type metadata upload_id) h =
      quietly _
        (create_multipart_upload_handler-Atomic setup bucket key content_type metadata upload_id)
  serve-Atomic json (Request.upload_part upload_id negative part_number body) h =
      quietly _ (upload_part_handler-Atomic setup upload_id negative part_number body)
  serve-Atomic json (Request.complete_multipart_upload bucket key upload_id parts) h =
      quietly _ (complete_multipart_upload_handler-Atomic setup bucket key upload_id parts)
  serve-Atomic json (Request.abort_multipart_upload upload_id) h = cc
  serve-Atomic json (Request.put_bucket_cors bucket rules) h =
      put_bucket_cors_handler-Atomic json bucket rules
  serve-Atomic json (Request.delete_bucket_cors bucket) h =
      delete_bucket_cors_handler-Atomic json bucket

-- A request that writes its row last and answers an error, wherever it fails, leaves the metadata as
-- they were and fires nothing: all that change state but the deletes of objects and buckets and the
-- abort of an upload, which remove files after their rows.
pub serve-error :
    (setup : Setup) (json : RulesJson) (request : Request) (w : World setup) (e : S3Error)
    → writes_last request ≡ true
    → (serve setup json request w).0 ≡ S3Result.err e
    → let later = (serve setup json request w).1 in (later.db ≡ w.db) × (later.fired ≡ w.fired)
unfolding Atomic
serve-error setup json request w e h q =
    let same = serve-Atomic setup json request h w e q in (same.db, same.fired)
