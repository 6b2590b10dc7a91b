-- ===== src/Store/Requests/FailedWrites.antt =====
-- A copy or a multipart upload that fails leaves the metadata alone.
use cubby.Base.{
  ℕ, ◌≡◌, ◌≢◌, refl, Bool, true, false, not, ◌&&◌, Option, none, some, List, [], ◌∷◌, Text, map,
  length,
}
use cubby.Multipart.{RecordedPart, composite_etag, validate_complete}
use cubby.Notify.{copy, complete_multipart_upload, ObjectEvent, created}
use cubby.Db.{
  Db, ObjectRow, MultipartRow, bucket_exists, put_object, get_object, get_multipart, put_part,
  all_parts, complete_multipart,
}
use cubby.Store.{
  S3Error, S3Result, Removal, no_such_bucket, invalid_request, invalid_argument, not_implemented,
  Setup, World, Action, ◌>>=◌, return, after, answered, db_call, db_read, fire, ensure, hex_md5,
}
use cubby.Store.Files.{settled, or_internal, db_try}
use cubby.Store.Atomic.{
  Same, Keeps, Atomic, bind-Atomic, last_write-Atomic, then_ok-Atomic, fail-Keeps,
  stream_to_temp-Keeps, io-Keeps, now-Keeps, object_path-Keeps, db_read-Keeps, ensure-Keeps,
  fire-ok,
}
use cubby.Store.Copies.{
  CopySource, bucket_key, access_point, CopyObjectInput, is_replace, same_object, copied_row,
  copy_from, copy_of, copy_object_handler,
}
use cubby.Store.Uploads.{
  submitted_of, recorded_of, is_part_number, stage_dir, part_path, completed_row, try_remove,
  finish_upload, create_multipart_upload_handler, upload_part_handler,
  complete_multipart_upload_handler, CompletedPart,
}
use cubby.Store.Requests.Steps.{
  rename_into-Keeps, move_bytes-Keeps, or_missing-Keeps, ensure_upload-Keeps, assemble_parts-Keeps,
  or_no_upload-Keeps, selected_of-Keeps, or_panic-Keeps,
}

module _ (setup : Setup) where
  open setup use {fs, digests}

  -- An action that keeps all is one whose errors do.
  Keeps-Atomic : {A : Type 0} (m : Action setup A) → Keeps setup m → Atomic setup m
  unfolding Keeps Atomic
  Keeps-Atomic m h w e q = h w

  -- A write to the database that can be refused, at the end.
  pub refused :
      {A : Type 0} (faults : List Bool) (found : Option (A × Db)) (w : World setup) (e : S3Error)
      → (after setup
          (answered setup faults (settled setup found w.db) w).0
          (answered setup faults (settled setup found w.db) w).1
          (or_internal setup)).0
        ≡ S3Result.err e
      → Same setup w
          (after setup
            (answered setup faults (settled setup found w.db) w).0
            (answered setup faults (settled setup found w.db) w).1
            (or_internal setup)).1
  refused [] none w e q = record { db = refl; fired = refl }
  refused [] (some (a, later)) w e q = cc
  refused (true ∷ faults) none w e q = record { db = refl; fired = refl }
  refused (true ∷ faults) (some (a, later)) w e q = record { db = refl; fired = refl }
  refused (false ∷ faults) none w e q = record { db = refl; fired = refl }
  refused (false ∷ faults) (some (a, later)) w e q = cc

  pub db_try-Atomic : {A : Type 0} (f : Db → Option (A × Db)) → Atomic setup (db_try setup f)
  unfolding Atomic ◌>>=◌
  db_try-Atomic f w e q = refused w.db_faults (f w.db) w e q

  -- A check of the bucket, in front of what is atomic.
  pub checked :
      {A : Type 0} (bucket : Text) (m : Action setup A)
      → Atomic setup m
      → Atomic setup (
          ◌>>=◌ setup
            (db_read setup (bucket_exists bucket))
            (λ exists. ◌>>=◌ setup (ensure setup no_such_bucket exists) (λ _. m)))
  checked bucket m h =
      bind-Atomic setup _ _ (db_read-Keeps setup (bucket_exists bucket))
        (λ exists. bind-Atomic setup _ _ (ensure-Keeps setup no_such_bucket exists) (λ _. h))

  -- The row and then the event: only the row can fail.
  row_and_event :
      {A : Type 0} (f : Db → Unit × Db) (m : Action setup A)
      → ((w : World setup) (e : S3Error) → (m w).0 ≢ S3Result.err e)
      → Atomic setup (◌>>=◌ setup (db_call setup f) (λ _. m))
  row_and_event f m h = last_write-Atomic setup f (λ _. m) (λ _. h)

  copy_from-Atomic :
      (src_bucket src_key : Text) (input : CopyObjectInput) (row : ObjectRow)
      → Atomic setup (copy_from setup src_bucket src_key input row)
  unfolding copy_from
  copy_from-Atomic src_bucket src_key input row = checked input.bucket _ (
      bind-Atomic setup _ _
        (ensure-Keeps setup invalid_request
          (not (same_object src_bucket src_key input && not (is_replace input.metadata_directive))))
        (λ _.
          bind-Atomic setup _ _
            (move_bytes-Keeps setup (same_object src_bucket src_key input) src_bucket src_key input)
            (λ _. bind-Atomic setup _ _ (now-Keeps setup) (λ at_time.
              row_and_event (λ db. (tt, put_object (copied_row input row at_time) db)) _
                (fire-ok setup (created input.bucket input.key copy row.size row.etag)
                  (row.etag, at_time))))))

  copy_of-Atomic :
      (source : CopySource) (input : CopyObjectInput) → Atomic setup (copy_of setup source input)
  copy_of-Atomic access_point input = Keeps-Atomic _ (fail-Keeps setup (Text × ℕ) not_implemented)
  copy_of-Atomic (bucket_key src_bucket src_key) input =
      bind-Atomic setup _ _ (db_read-Keeps setup (get_object src_bucket src_key)) (λ found.
        bind-Atomic setup _ _ (or_missing-Keeps setup src_bucket found)
          (λ row. copy_from-Atomic src_bucket src_key input row))

  pub copy_object_handler-Atomic :
      (input : CopyObjectInput) → Atomic setup (copy_object_handler setup input)
  unfolding copy_object_handler
  copy_object_handler-Atomic input = copy_of-Atomic input.copy_source input

  pub upload_part_handler-Atomic :
      (upload_id : Text) (negative : Bool) (n : ℕ) (body : Option (List (Option Text)))
      → Atomic setup (upload_part_handler setup upload_id negative n body)
  unfolding upload_part_handler
  upload_part_handler-Atomic upload_id negative n body =
      bind-Atomic setup _ _ (ensure-Keeps setup invalid_argument (is_part_number negative n)) (λ _.
        bind-Atomic setup _ _ (ensure_upload-Keeps setup upload_id) (λ _.
          bind-Atomic setup _ _ (stream_to_temp-Keeps setup body) (λ staged.
            bind-Atomic setup _ _ (rename_into-Keeps setup staged.0 (part_path setup upload_id n))
              (λ _.
                row_and_event
                  (λ db. (tt, put_part upload_id n (length staged.1) (hex_md5 setup staged.1) db))
                  (return setup (hex_md5 setup staged.1)) (λ w e q. cc)))))

  pub create_multipart_upload_handler-Atomic :
      (bucket key : Text) (content_type : Option Text) (metadata upload_id : Text)
      → Atomic setup
          (create_multipart_upload_handler setup bucket key content_type metadata upload_id)
  unfolding create_multipart_upload_handler
  create_multipart_upload_handler-Atomic bucket key content_type metadata upload_id =
      checked bucket _ (
        bind-Atomic setup _ _ (io-Keeps setup (fs.create_dir_all (stage_dir setup upload_id))) (λ _.
          bind-Atomic setup _ _ (now-Keeps setup)
            (λ at_time. then_ok-Atomic setup _ _ (db_try-Atomic _) (λ _ w e q. cc))))

  -- The event, and the removal whose end does not matter, fail never.
  closing :
      {A : Type 0} (event : ObjectEvent) (f : fs.Disk → Removal × fs.Disk) (a : A) (w : World setup)
      (e : S3Error)
      → (◌>>=◌ setup
          (fire setup event)
          (λ _. ◌>>=◌ setup (try_remove setup f) (λ _. return setup a))
          w).0
        ≢ S3Result.err e
  unfolding ◌>>=◌
  closing event f a w e q = cc

  finish_upload-Atomic :
      (bucket key upload_id : Text) (upload : MultipartRow) (selected : List RecordedPart)
      (composite : Text)
      → Atomic setup (finish_upload setup bucket key upload_id upload selected composite)
  unfolding finish_upload
  finish_upload-Atomic bucket key upload_id upload selected composite =
      bind-Atomic setup _ _ (assemble_parts-Keeps setup upload_id selected) (λ staged.
        bind-Atomic setup _ _ (object_path-Keeps setup bucket key) (λ final_path.
          bind-Atomic setup _ _ (rename_into-Keeps setup staged.0 final_path) (λ _.
            bind-Atomic setup _ _ (now-Keeps setup) (λ at_time.
              row_and_event
                (λ db. (
                  tt,
                  complete_multipart upload_id
                      (completed_row setup bucket key upload staged.1 composite at_time) db,
                ))
                _
                (closing (created bucket key complete_multipart_upload staged.1 composite)
                  (fs.remove_dir_all (stage_dir setup upload_id)) composite)))))

  pub complete_multipart_upload_handler-Atomic :
      (bucket key upload_id : Text) (parts : List CompletedPart)
      → Atomic setup (complete_multipart_upload_handler setup bucket key upload_id parts)
  unfolding complete_multipart_upload_handler
  complete_multipart_upload_handler-Atomic bucket key upload_id parts =
      bind-Atomic setup _ _ (db_read-Keeps setup (get_multipart upload_id)) (λ found.
        bind-Atomic setup _ _ (or_no_upload-Keeps setup found) (λ upload.
          bind-Atomic setup _ _ (db_read-Keeps setup (all_parts upload_id)) (λ rows.
            bind-Atomic setup _ _
              (selected_of-Keeps setup
                (validate_complete (map submitted_of parts) (map recorded_of rows)))
              (λ selected.
                bind-Atomic setup _ _
                  (or_panic-Keeps setup (composite_etag digests (map (λ p. p.etag_hex) selected)))
                  (λ composite.
                    finish_upload-Atomic bucket key upload_id upload selected composite)))))
