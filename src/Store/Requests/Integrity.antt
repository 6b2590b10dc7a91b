-- ===== src/Store/Requests/Integrity.antt =====
-- The tables stay well formed through every request, whether it succeeds or fails.
use cubby.Base.{
  ℕ, refl, Bool, not, ◌&&◌, Option, none, some, List, [], ◌∷◌, Text, map, if◌then◌else◌, length,
  leb,
}
use cubby.Notify.{put, copy, created, removed}
use cubby.Db.{
  ObjectRow, bucket_exists, get_object, create_bucket, try_delete_bucket, delete_object,
  delete_objects, put_bucket_cors,
}
use cubby.Db.Preserve.{IsWellFormed}
use cubby.Db.Integrity.{Command}
use cubby.Store.{
  Setup, World, hex_md5, row_of, bucket_dir, put_bytes, create_bucket_handler, put_object_handler,
  delete_object_handler, delete_bucket_handler, no_such_bucket, bucket_already_owned_by_you,
  invalid_request, not_implemented,
}
use cubby.Store.Atomic.{
  fail-Keeps, stream_to_temp-Keeps, make_parent-Keeps, or_clean-Keeps, io-Keeps, now-Keeps,
  object_path-Keeps, db_read-Keeps, ensure-Keeps,
}
use cubby.Store.Copies.{
  CopySource, bucket_key, access_point, CopyObjectInput, is_replace, same_object, copied_row,
  copy_from, copy_of, copy_object_handler, unlink_all, fire_all, delete_objects_handler,
}
use cubby.Store.CorsConfig.{
  RulesJson, DtoRule, domain_rule_from_dto, is_none, put_bucket_cors_handler,
  delete_bucket_cors_handler,
}
use cubby.Cors.{validate}
use cubby.Store.Requests.{Request, serve, serve_all}
use cubby.Store.Requests.Steps.{move_bytes-Keeps, or_missing-Keeps}
use cubby.Store.Requests.Preserves.{
  Preserves, kept, bind-Preserves, first, command, settled-same, remove-Preserves, fire-Preserves,
  return-Preserves, checked, row_then, fire_if-Preserves, outcome_of-Preserves, tried, quietly,
}
use cubby.Store.Requests.SoundUploads.{
  create_multipart_upload_handler-Preserves, upload_part_handler-Preserves,
  complete_multipart_upload_handler-Preserves, abort_multipart_upload_handler-Preserves,
}

module _ (setup : Setup) where
  open setup use {fs, digests}

  put_bytes-Preserves :
      (bucket key : Text) (body : Option (List (Option Text))) (content_type : Option Text)
      (metadata : Text)
      → Preserves setup (put_bytes setup bucket key body content_type metadata)
  unfolding put_bytes
  put_bytes-Preserves bucket key body content_type metadata =
      first setup _ _ (object_path-Keeps setup bucket key) (λ final_path.
        first setup _ _ (stream_to_temp-Keeps setup body) (λ staged.
          first setup _ _ (make_parent-Keeps setup staged.0 (fs.parent final_path)) (λ _.
            first setup _ _
              (or_clean-Keeps setup staged.0 _ (io-Keeps setup (fs.rename staged.0 final_path)))
              (λ _. first setup _ _ (now-Keeps setup) (λ at_time.
                bind-Preserves setup _ _
                  (command setup
                    (Command.puts_object
                      (row_of setup bucket key staged.1 content_type metadata at_time))
                    _ (λ db. refl))
                  (λ _. return-Preserves setup (hex_md5 setup staged.1, length staged.1)))))))

  create_bucket_handler-Preserves :
      (bucket : Text) → Preserves setup (create_bucket_handler setup bucket)
  unfolding create_bucket_handler
  create_bucket_handler-Preserves bucket =
      first setup _ _ (io-Keeps setup (fs.create_dir_all (bucket_dir setup bucket))) (λ _.
        first setup _ _ (now-Keeps setup) (λ at_time.
          bind-Preserves setup _ _
            (bind-Preserves setup _ _
              (command setup (Command.creates_bucket bucket at_time) (create_bucket bucket at_time)
                (λ db. refl))
              (λ b. kept setup _ (ensure-Keeps setup bucket_already_owned_by_you b)))
            (λ _. return-Preserves setup (b'/' ∷ bucket))))

  put_object_handler-Preserves :
      (bucket key : Text) (body : Option (List (Option Text))) (content_type : Option Text)
      (metadata : Text)
      → Preserves setup (put_object_handler setup bucket key body content_type metadata)
  unfolding put_object_handler
  put_object_handler-Preserves bucket key body content_type metadata =
      bind-Preserves setup _ _
        (first setup _ _ (db_read-Keeps setup (bucket_exists bucket))
          (λ b. kept setup _ (ensure-Keeps setup no_such_bucket b)))
        (λ _.
          bind-Preserves setup _ _ (put_bytes-Preserves bucket key body content_type metadata)
            (λ stored.
              bind-Preserves setup _ _
                (fire-Preserves setup (created bucket key put stored.1 stored.0))
                (λ _. return-Preserves setup stored.0)))

  delete_object_handler-Preserves :
      (bucket key : Text) → Preserves setup (delete_object_handler setup bucket key)
  unfolding delete_object_handler
  delete_object_handler-Preserves bucket key =
      row_then setup (Command.deletes_object bucket key) (delete_object bucket key) _ (λ db. refl)
        (λ was_there. first setup _ _ (object_path-Keeps setup bucket key) (λ path.
          bind-Preserves setup _ _ (remove-Preserves setup (fs.remove_file path))
            (λ _. fire_if-Preserves setup was_there (removed bucket key))))

  delete_bucket_handler-Preserves :
      (bucket : Text) → Preserves setup (delete_bucket_handler setup bucket)
  unfolding delete_bucket_handler
  delete_bucket_handler-Preserves bucket =
      bind-Preserves setup _ _
        (row_then setup (Command.deletes_bucket bucket) (try_delete_bucket bucket) _ (λ db. refl)
          (outcome_of-Preserves setup))
        (λ _. remove-Preserves setup (fs.remove_dir_all (bucket_dir setup bucket)))

  copy_from-Preserves :
      (src_bucket src_key : Text) (input : CopyObjectInput) (row : ObjectRow)
      → Preserves setup (copy_from setup src_bucket src_key input row)
  unfolding copy_from
  copy_from-Preserves src_bucket src_key input row = checked setup input.bucket _ (
      first setup _ _
        (ensure-Keeps setup invalid_request
          (not (same_object src_bucket src_key input && not (is_replace input.metadata_directive))))
        (λ _.
          first setup _ _
            (move_bytes-Keeps setup (same_object src_bucket src_key input) src_bucket src_key input)
            (λ _. first setup _ _ (now-Keeps setup) (λ at_time.
              row_then setup (Command.puts_object (copied_row input row at_time)) _ _ (λ db. refl)
                (λ _.
                  bind-Preserves setup _ _
                    (fire-Preserves setup (created input.bucket input.key copy row.size row.etag))
                    (λ _. return-Preserves setup (row.etag, at_time)))))))

  copy_of-Preserves :
      (source : CopySource) (input : CopyObjectInput) → Preserves setup (copy_of setup source input)
  copy_of-Preserves access_point input = kept setup _ (fail-Keeps setup (Text × ℕ) not_implemented)
  copy_of-Preserves (bucket_key src_bucket src_key) input =
      first setup _ _ (db_read-Keeps setup (get_object src_bucket src_key)) (λ found.
        first setup _ _ (or_missing-Keeps setup src_bucket found)
          (λ row. copy_from-Preserves src_bucket src_key input row))

  unlink_all-Preserves :
      (bucket : Text) (keys : List Text) → Preserves setup (unlink_all setup bucket keys)
  unfolding unlink_all
  unlink_all-Preserves bucket [] = return-Preserves setup tt
  unlink_all-Preserves bucket (key ∷ keys) =
      first setup _ _ (object_path-Keeps setup bucket key) (λ path.
        bind-Preserves setup _ _ (remove-Preserves setup (fs.remove_file path))
          (λ _. unlink_all-Preserves bucket keys))

  fire_all-Preserves :
      (bucket : Text) (keys : List Text) → Preserves setup (fire_all setup bucket keys)
  unfolding fire_all
  fire_all-Preserves bucket [] = return-Preserves setup tt
  fire_all-Preserves bucket (key ∷ keys) =
      bind-Preserves setup _ _ (fire-Preserves setup (removed bucket key))
        (λ _. fire_all-Preserves bucket keys)

  delete_objects_handler-Preserves :
      (bucket : Text) (keys : List Text) (quiet : Bool)
      → Preserves setup (delete_objects_handler setup bucket keys quiet)
  unfolding delete_objects_handler
  delete_objects_handler-Preserves bucket keys quiet =
      first setup _ _ (ensure-Keeps setup invalid_request (leb (length keys) 1000)) (λ _.
        checked setup bucket _ (
          row_then setup (Command.deletes_objects bucket keys) (delete_objects bucket keys) _
            (λ db. refl)
            (λ gone. bind-Preserves setup _ _ (unlink_all-Preserves bucket keys) (λ _.
              bind-Preserves setup _ _ (fire_all-Preserves bucket gone)
                (λ _. return-Preserves setup (if quiet then none else some keys))))))

  put_bucket_cors_handler-Preserves :
      (json : RulesJson) (bucket : Text) (rules : List DtoRule)
      → Preserves setup (put_bucket_cors_handler setup json bucket rules)
  unfolding put_bucket_cors_handler
  put_bucket_cors_handler-Preserves json bucket rules =
      let text = json.print (map domain_rule_from_dto rules) in
      checked setup bucket _ (
        first setup _ _
          (ensure-Keeps setup invalid_request (is_none (validate (map domain_rule_from_dto rules))))
          (λ _.
            tried setup (Command.puts_cors bucket text) _
              (λ db. settled-same setup (put_bucket_cors bucket text db) tt db)))

  delete_bucket_cors_handler-Preserves :
      (json : RulesJson) (bucket : Text)
      → Preserves setup (delete_bucket_cors_handler setup json bucket)
  unfolding delete_bucket_cors_handler
  delete_bucket_cors_handler-Preserves json bucket =
      command setup (Command.deletes_cors bucket) _ (λ db. refl)

  serve-Preserves :
      (json : RulesJson) (request : Request) → Preserves setup (serve setup json request)
  unfolding copy_object_handler
  serve-Preserves json (Request.create_bucket bucket) =
      quietly setup _ (create_bucket_handler-Preserves bucket)
  serve-Preserves json (Request.delete_bucket bucket) = delete_bucket_handler-Preserves bucket
  serve-Preserves json (Request.put_object bucket key body content_type metadata) =
      quietly setup _ (put_object_handler-Preserves bucket key body content_type metadata)
  serve-Preserves json (Request.copy_object input) =
      quietly setup _ (copy_of-Preserves input.copy_source input)
  serve-Preserves json (Request.delete_object bucket key) =
      delete_object_handler-Preserves bucket key
  serve-Preserves json (Request.delete_objects bucket keys quiet) =
      quietly setup _ (delete_objects_handler-Preserves bucket keys quiet)
  serve-Preserves json
        (Request.create_multipart_upload bucket key content_type metadata upload_id) =
      quietly setup _
        (create_multipart_upload_handler-Preserves setup bucket key content_type metadata upload_id)
  serve-Preserves json (Request.upload_part upload_id negative part_number body) =
      quietly setup _ (upload_part_handler-Preserves setup upload_id negative part_number body)
  serve-Preserves json (Request.complete_multipart_upload bucket key upload_id parts) =
      quietly setup _ (complete_multipart_upload_handler-Preserves setup bucket key upload_id parts)
  serve-Preserves json (Request.abort_multipart_upload upload_id) =
      abort_multipart_upload_handler-Preserves setup upload_id
  serve-Preserves json (Request.put_bucket_cors bucket rules) =
      put_bucket_cors_handler-Preserves json bucket rules
  serve-Preserves json (Request.delete_bucket_cors bucket) =
      delete_bucket_cors_handler-Preserves json bucket

-- Whatever requests the store served, in whatever order, and wherever each of them failed, the tables
-- stay well formed: in the order of their keys, with no key twice, and with no notification and no
-- CORS configuration of a bucket that is not there.
pub serve_all-IsWellFormed :
    (setup : Setup) (json : RulesJson) (requests : List Request) (w : World setup)
    → IsWellFormed w.db
    → IsWellFormed (serve_all setup json requests w).db
unfolding serve_all Preserves
serve_all-IsWellFormed setup json [] w h = h
serve_all-IsWellFormed setup json (request ∷ requests) w h =
    serve_all-IsWellFormed setup json requests (serve setup json request w).1
      (serve-Preserves setup json request w h)
