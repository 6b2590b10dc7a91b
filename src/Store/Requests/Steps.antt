-- ===== src/Store/Requests/Steps.antt =====
-- The steps of the requests that keep the metadata and what was fired, however they end.
use cubby.Base.{
  ℕ, refl, ◌+◌, Bool, true, false, Option, none, some, List, [], ◌∷◌, Text, codes, is_some, length,
}
use cubby.Multipart.{RecordedPart, Completion, ok, err}
use cubby.Db.{ObjectRow, MultipartRow, bucket_exists, get_multipart}
use cubby.Store.{
  no_such_bucket, no_such_key, no_such_upload, Setup, Action, ◌>>=◌, open_file, opened, missing_as,
  or_missing,
}
use cubby.Store.Files.{copy_into, synced, with_temp, rename_into}
use cubby.Store.Atomic.{
  Keeps, bind-Keeps, return-Keeps, fail-Keeps, make_parent-Keeps, or_clean-Keeps, io-Keeps,
  next_tmp-Keeps, object_path-Keeps, db_read-Keeps, ensure-Keeps,
}
use cubby.Store.Copies.{CopyObjectInput, stage_file_copy, move_bytes}
use cubby.Store.Uploads.{
  error_of, part_path, ensure_upload, append_parts, assemble_parts, selected_of, or_panic,
  or_no_upload,
}

module _ (setup : Setup) where
  open setup use {fs, digests}

  pub opened-Keeps : (found : Option Text) → Keeps setup (λ w. opened setup found w)
  unfolding Keeps
  opened-Keeps none w = record { db = refl; fired = refl }
  opened-Keeps (some bytes) w = record { db = refl; fired = refl }

  pub open_file-Keeps : (path : Text) → Keeps setup (open_file setup path)
  unfolding Keeps
  open_file-Keeps path w = opened-Keeps (fs.read path w.disk) w

  pub copy_into-Keeps : (temp src : Text) → Keeps setup (copy_into setup temp src)
  unfolding copy_into
  copy_into-Keeps temp src = bind-Keeps setup _ _ (open_file-Keeps src) (λ bytes.
      bind-Keeps setup _ _ (io-Keeps setup (fs.write_all temp bytes))
        (λ _. return-Keeps setup (length bytes)))

  pub synced-Keeps : {A : Type 0} (temp : Text) (a : A) → Keeps setup (synced setup temp a)
  unfolding synced
  synced-Keeps temp a =
      bind-Keeps setup _ _ (io-Keeps setup (fs.sync_all temp)) (λ _. return-Keeps setup a)

  pub with_temp-Keeps :
      {A : Type 0} (ext : Text) (fill : Text → Action setup A)
      → ((temp : Text) → Keeps setup (fill temp))
      → Keeps setup (with_temp setup ext fill)
  unfolding with_temp
  with_temp-Keeps ext fill h = bind-Keeps setup _ _ (next_tmp-Keeps setup ext) (λ temp.
      bind-Keeps setup _ _ (io-Keeps setup (fs.create temp))
        (λ _. or_clean-Keeps setup temp _ (h temp)))

  pub rename_into-Keeps : (temp final : Text) → Keeps setup (rename_into setup temp final)
  unfolding rename_into
  rename_into-Keeps temp final =
      bind-Keeps setup _ _ (make_parent-Keeps setup temp (fs.parent final))
        (λ _. or_clean-Keeps setup temp _ (io-Keeps setup (fs.rename temp final)))

  pub move_bytes-Keeps :
      (same : Bool) (src_bucket src_key : Text) (input : CopyObjectInput)
      → Keeps setup (move_bytes setup same src_bucket src_key input)
  unfolding move_bytes stage_file_copy
  move_bytes-Keeps true src_bucket src_key input = return-Keeps setup tt
  move_bytes-Keeps false src_bucket src_key input =
      bind-Keeps setup _ _ (object_path-Keeps setup src_bucket src_key) (λ src_path.
        bind-Keeps setup _ _ (object_path-Keeps setup input.bucket input.key) (λ final_path.
          bind-Keeps setup _ _
            (with_temp-Keeps (codes "copy")
              (λ temp. ◌>>=◌ setup (copy_into setup temp src_path) (λ _. synced setup temp temp))
              (λ temp.
                bind-Keeps setup _ _ (copy_into-Keeps temp src_path) (λ _. synced-Keeps temp temp)))
            (λ temp. rename_into-Keeps temp final_path)))

  pub missing_as-Keeps : (A : Type 0) (b : Bool) → Keeps setup (missing_as setup {A = A} b)
  missing_as-Keeps A true = fail-Keeps setup A no_such_key
  missing_as-Keeps A false = fail-Keeps setup A no_such_bucket

  pub or_missing-Keeps :
      (bucket : Text) (found : Option ObjectRow) → Keeps setup (or_missing setup bucket found)
  or_missing-Keeps bucket none =
      bind-Keeps setup _ _ (db_read-Keeps setup (bucket_exists bucket)) (missing_as-Keeps ObjectRow)
  or_missing-Keeps bucket (some row) = return-Keeps setup row

  pub ensure_upload-Keeps : (upload_id : Text) → Keeps setup (ensure_upload setup upload_id)
  ensure_upload-Keeps upload_id =
      bind-Keeps setup _ _ (db_read-Keeps setup (get_multipart upload_id))
        (λ upload. ensure-Keeps setup no_such_upload (is_some upload))

  pub append_parts-Keeps :
      (temp upload_id : Text) (total : ℕ) (parts : List RecordedPart)
      → Keeps setup (append_parts setup temp upload_id total parts)
  unfolding append_parts
  append_parts-Keeps temp upload_id total [] = return-Keeps setup total
  append_parts-Keeps temp upload_id total (part ∷ parts) =
      bind-Keeps setup _ _ (copy_into-Keeps temp (part_path setup upload_id part.part_number))
        (λ n. append_parts-Keeps temp upload_id (total + n) parts)

  pub assemble_parts-Keeps :
      (upload_id : Text) (parts : List RecordedPart)
      → Keeps setup (assemble_parts setup upload_id parts)
  unfolding assemble_parts
  assemble_parts-Keeps upload_id parts = with_temp-Keeps (codes "assemble") _ (λ temp.
      bind-Keeps setup _ _ (append_parts-Keeps temp upload_id 0 parts)
        (λ total. synced-Keeps temp (temp, total)))

  pub or_no_upload-Keeps : (found : Option MultipartRow) → Keeps setup (or_no_upload setup found)
  or_no_upload-Keeps none = fail-Keeps setup MultipartRow no_such_upload
  or_no_upload-Keeps (some upload) = return-Keeps setup upload

  pub selected_of-Keeps : (c : Completion) → Keeps setup (selected_of setup c)
  selected_of-Keeps (ok selected) = return-Keeps setup selected
  selected_of-Keeps (err e) = fail-Keeps setup (List RecordedPart) (error_of e)

  pub or_panic-Keeps : {A : Type 0} (found : Option A) → Keeps setup (or_panic setup found)
  unfolding Keeps
  or_panic-Keeps none w = record { db = refl; fired = refl }
  or_panic-Keeps (some a) w = record { db = refl; fired = refl }
