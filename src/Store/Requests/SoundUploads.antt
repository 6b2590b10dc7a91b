-- ===== src/Store/Requests/SoundUploads.antt =====
-- The multipart uploads keep the tables well formed.
use cubby.Base.{ℕ, refl, Bool, Option, List, Text, map, length}
use cubby.Multipart.{RecordedPart, composite_etag, validate_complete}
use cubby.Notify
use cubby.Notify.{put, copy, created, removed, ObjectEvent}
use cubby.Db.{MultipartRow, get_multipart, all_parts, create_multipart}
use cubby.Db.Integrity.{Command}
use cubby.Store.{Setup, hex_md5, invalid_argument}
use cubby.Store.Atomic.{
  stream_to_temp-Keeps, io-Keeps, now-Keeps, object_path-Keeps, db_read-Keeps, ensure-Keeps,
}
use cubby.Store.Uploads.{
  CompletedPart, submitted_of, recorded_of, is_part_number, stage_dir, part_path, completed_row,
  finish_upload, create_multipart_upload_handler, upload_part_handler,
  complete_multipart_upload_handler, abort_multipart_upload_handler,
}
use cubby.Store.Requests.Steps.{
  ensure_upload-Keeps, rename_into-Keeps, assemble_parts-Keeps, or_no_upload-Keeps,
  selected_of-Keeps, or_panic-Keeps,
}
use cubby.Store.Requests.Preserves.{
  Preserves, bind-Preserves, first, settled-same, remove-Preserves, fire-Preserves,
  try_remove-Preserves, return-Preserves, checked, row_then, tried,
}

module _ (setup : Setup) where
  open setup use {fs, digests}

  pub create_multipart_upload_handler-Preserves :
      (bucket key : Text) (content_type : Option Text) (metadata upload_id : Text)
      → Preserves setup
          (create_multipart_upload_handler setup bucket key content_type metadata upload_id)
  unfolding create_multipart_upload_handler
  create_multipart_upload_handler-Preserves bucket key content_type metadata upload_id =
      checked setup bucket _ (
        first setup _ _ (io-Keeps setup (fs.create_dir_all (stage_dir setup upload_id))) (λ _.
          first setup _ _ (now-Keeps setup) (λ at_time.
            let row : MultipartRow = record {
              upload_id = upload_id;
              bucket = bucket;
              key = key;
              content_type = content_type;
              metadata = metadata;
              started_at = at_time;
            } in
            bind-Preserves setup _ _
              (tried setup (Command.creates_multipart row) _
                (λ db. settled-same setup (create_multipart row db) tt db))
              (λ _. return-Preserves setup upload_id))))

  pub upload_part_handler-Preserves :
      (upload_id : Text) (negative : Bool) (n : ℕ) (body : Option (List (Option Text)))
      → Preserves setup (upload_part_handler setup upload_id negative n body)
  unfolding upload_part_handler
  upload_part_handler-Preserves upload_id negative n body =
      first setup _ _ (ensure-Keeps setup invalid_argument (is_part_number negative n)) (λ _.
        first setup _ _ (ensure_upload-Keeps setup upload_id) (λ _.
          first setup _ _ (stream_to_temp-Keeps setup body) (λ staged.
            first setup _ _ (rename_into-Keeps setup staged.0 (part_path setup upload_id n)) (λ _.
              row_then setup
                (Command.puts_part upload_id n (length staged.1) (hex_md5 setup staged.1)) _ _
                (λ db. refl) (λ _. return-Preserves setup (hex_md5 setup staged.1))))))

  finish_upload-Preserves :
      (bucket key upload_id : Text) (upload : MultipartRow) (selected : List RecordedPart)
      (composite : Text)
      → Preserves setup (finish_upload setup bucket key upload_id upload selected composite)
  unfolding finish_upload
  finish_upload-Preserves bucket key upload_id upload selected composite =
      first setup _ _ (assemble_parts-Keeps setup upload_id selected) (λ staged.
        first setup _ _ (object_path-Keeps setup bucket key) (λ final_path.
          first setup _ _ (rename_into-Keeps setup staged.0 final_path) (λ _.
            first setup _ _ (now-Keeps setup) (λ at_time.
              row_then setup
                (Command.completes_multipart upload_id
                  (completed_row setup bucket key upload staged.1 composite at_time))
                _ _ (λ db. refl)
                (λ _.
                  bind-Preserves setup _ _
                    (fire-Preserves setup
                      (created bucket key Notify.complete_multipart_upload staged.1 composite))
                    (λ _.
                      bind-Preserves setup _ _
                        (try_remove-Preserves setup (fs.remove_dir_all (stage_dir setup upload_id)))
                        (λ _. return-Preserves setup composite)))))))

  pub complete_multipart_upload_handler-Preserves :
      (bucket key upload_id : Text) (parts : List CompletedPart)
      → Preserves setup (complete_multipart_upload_handler setup bucket key upload_id parts)
  unfolding complete_multipart_upload_handler
  complete_multipart_upload_handler-Preserves bucket key upload_id parts =
      first setup _ _ (db_read-Keeps setup (get_multipart upload_id)) (λ found.
        first setup _ _ (or_no_upload-Keeps setup found) (λ upload.
          first setup _ _ (db_read-Keeps setup (all_parts upload_id)) (λ rows.
            first setup _ _
              (selected_of-Keeps setup
                (validate_complete (map submitted_of parts) (map recorded_of rows)))
              (λ selected.
                first setup _ _
                  (or_panic-Keeps setup (composite_etag digests (map (λ p. p.etag_hex) selected)))
                  (λ composite.
                    finish_upload-Preserves bucket key upload_id upload selected composite)))))

  pub abort_multipart_upload_handler-Preserves :
      (upload_id : Text) → Preserves setup (abort_multipart_upload_handler setup upload_id)
  unfolding abort_multipart_upload_handler
  abort_multipart_upload_handler-Preserves upload_id =
      first setup _ _ (ensure_upload-Keeps setup upload_id) (λ _.
        row_then setup (Command.deletes_multipart upload_id) _ _ (λ db. refl)
          (λ _. remove-Preserves setup (fs.remove_dir_all (stage_dir setup upload_id))))
