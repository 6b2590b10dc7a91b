-- ===== src/Store/Objects.antt =====
-- What the operations on objects answer and leave, when they fail too.
use cubby.Base.{◌≡◌, Option, List, Text, length}
use cubby.Notify.{put, created}
use cubby.Db.{bucket_exists, put_object}
use cubby.Store.{
  S3Error, no_such_bucket, err, Setup, World, ◌>>=◌, return, db_read, io, or_clean, object_path,
  now, stream_to_temp, make_parent, hex_md5, row_of, put_bytes, ensure, put_object_handler,
}
use cubby.Store.Atomic.{
  Atomic, bind-Keeps, bind-Atomic, last_write-Atomic, then_ok-Atomic, fire-ok, stream_to_temp-Keeps,
  make_parent-Keeps, or_clean-Keeps, io-Keeps, now-Keeps, object_path-Keeps, db_read-Keeps,
  ensure-Keeps,
}

module _ (setup : Setup) where
  open setup use {fs, pe, digests}

  pub put_bytes-Atomic :
      (bucket key : Text) (body : Option (List (Option Text))) (content_type : Option Text)
      (metadata : Text)
      → Atomic setup (put_bytes setup bucket key body content_type metadata)
  unfolding put_bytes
  put_bytes-Atomic bucket key body content_type metadata =
      bind-Atomic setup (object_path setup bucket key) _ (object_path-Keeps setup bucket key)
        (λ final_path.
          bind-Atomic setup (stream_to_temp setup body) _ (stream_to_temp-Keeps setup body)
            (λ staged.
              bind-Atomic setup (make_parent setup staged.0 (fs.parent final_path)) _
                (make_parent-Keeps setup staged.0 (fs.parent final_path))
                (λ _.
                  bind-Atomic setup
                    (or_clean setup staged.0 (io setup (fs.rename staged.0 final_path))) _
                    (or_clean-Keeps setup staged.0 _
                      (io-Keeps setup (fs.rename staged.0 final_path)))
                    (λ _. bind-Atomic setup (now setup) _ (now-Keeps setup) (λ at_time.
                      last_write-Atomic setup
                        (λ db. (
                          tt,
                          put_object
                              (row_of setup bucket key staged.1 content_type metadata at_time) db,
                        ))
                        (λ _. return setup (hex_md5 setup staged.1, length staged.1))
                        (λ a w e q. cc))))))

-- A PutObject that answers an error leaves the metadata as they were, and fires nothing: whichever step
-- fails, the check of the bucket, the streaming, the rename or the row itself, which is written last.
pub put_object_handler-error :
    (setup : Setup) (bucket key : Text) (body : Option (List (Option Text)))
    (content_type : Option Text) (metadata : Text) (w : World setup) (e : S3Error)
    → (put_object_handler setup bucket key body content_type metadata w).0 ≡ err e
    → let later = (put_object_handler setup bucket key body content_type metadata w).1 in
      (later.db ≡ w.db) × (later.fired ≡ w.fired)
unfolding put_object_handler Atomic
put_object_handler-error setup bucket key body content_type metadata w e h =
    let same =
      bind-Atomic setup
        (◌>>=◌ setup (db_read setup (bucket_exists bucket)) (ensure setup no_such_bucket)) _
        (bind-Keeps setup (db_read setup (bucket_exists bucket)) (ensure setup no_such_bucket)
          (db_read-Keeps setup (bucket_exists bucket)) (ensure-Keeps setup no_such_bucket))
        (λ _.
          then_ok-Atomic setup (put_bytes setup bucket key body content_type metadata) _
            (put_bytes-Atomic setup bucket key body content_type metadata)
            (λ stored. fire-ok setup (created bucket key put stored.1 stored.0) stored.0))
        w e h in
    (same.db, same.fired)
