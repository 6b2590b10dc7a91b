-- ===== src/Store/Uploads/ReadBack.antt =====
-- What a CompleteMultipartUpload that ended well did, and that GetObject reads the parts put together.
use cubby.Base.{
  ◌-◌, ◌≡◌, refl, sym, ap, ap₂, ◌∙◌, Option, none, some, List, [], ◌∷◌, ◌++◌, Text, codes, map,
  text_eq_refl, length, take, take_all, arith, true, false,
}
use cubby.Multipart.{RecordedPart, Completion, err, composite_etag, validate_complete}
use cubby.Notify.{complete_multipart_upload, created}
use cubby.Db.{
  ObjectRow, MultipartRow, object_key, get_object, get_multipart, all_parts, complete_multipart,
}
use cubby.Db.Table.{Sorted}
use cubby.Db.Laws.{complete_multipart-reads}
use cubby.Store.Files.{PlacedAt}
use cubby.Store.{ok, Setup, World, ◌>>=◌, output_of, get_object_handler, ObjectOutput}
use cubby.Store.RoundTrip.{Ends}
use cubby.Store.PutGet.{get_found}
use cubby.Store.Outcome.{bind_inv, Calm, Calm-trans, db_read-ok, return-ok}
use cubby.Store.Uploads.{
  CompletedPart, submitted_of, recorded_of, stage_dir, selected_of, or_panic, or_no_upload,
  completed_row, finish_upload, complete_multipart_upload_handler,
}
use cubby.Store.Uploads.Assembly.{joined, IsOutsideParts}
use cubby.Store.Uploads.Commit.{Completed, finish_upload-ok}

module _ (setup : Setup) where
  open setup use {fs, digests}

  or_no_upload-ok :
      (found : Option MultipartRow) {upload : MultipartRow} {w v : World setup}
      → Ends setup (or_no_upload setup found) w upload v
      → (found ≡ some upload) × (w ≡ v)
  or_no_upload-ok none e = absurd (cc e.result)
  or_no_upload-ok (some x) e = let (q, s) = return-ok setup e in (ap some q, s)

  selected_of-ok :
      (c : Completion) {selected : List RecordedPart} {w v : World setup}
      → Ends setup (selected_of setup c) w selected v
      → (c ≡ Completion.ok selected) × (w ≡ v)
  selected_of-ok (Completion.ok x) e = let (q, s) = return-ok setup e in (ap Completion.ok q, s)
  selected_of-ok (err x) e = absurd (cc e.result)

  or_panic-ok :
      (found : Option Text) {t : Text} {w v : World setup}
      → Ends setup (or_panic setup found) w t v
      → (found ≡ some t) × (w ≡ v)
  or_panic-ok none e = absurd (cc e.result)
  or_panic-ok (some x) {t} e = let same : x ≡ t = cc e.result in (ap some same, e.state)

  -- A completion that ended well, with the upload and the selection that it found.
  pub record Finished (bucket key upload_id : Text) (parts : List CompletedPart) (w : World setup)
      (etag : Text) (v : World setup) : Type 0 where
    pub upload : MultipartRow
    pub selected : List RecordedPart
    pub bytes : Text
    pub before : World setup
    pub found : get_multipart upload_id w.db ≡ some upload
    pub valid :
        validate_complete (map submitted_of parts) (map recorded_of (all_parts upload_id w.db))
        ≡ Completion.ok selected
    pub composite : composite_etag digests (map (λ p. p.etag_hex) selected) ≡ some etag
    pub same : Calm setup w before
    pub completed : Completed setup bucket key upload_id upload selected bytes before etag v

  -- From the selection on.
  selecting-ok :
      (bucket key upload_id : Text) (upload : MultipartRow) (c : Completion) {etag : Text}
      {w v : World setup}
      → IsOutsideParts setup upload_id (setup.tmp_path w.tmp_counter (codes "assemble"))
      → Ends setup
          (◌>>=◌ setup (selected_of setup c) (λ selected.
            ◌>>=◌ setup
              (or_panic setup (composite_etag digests (map (λ p. p.etag_hex) selected)))
              (λ composite. finish_upload setup bucket key upload_id upload selected composite)))
          w
          etag
          v
      → (selected : List RecordedPart) × (bytes : Text) × (c ≡ Completion.ok selected)
        × (composite_etag digests (map (λ p. p.etag_hex) selected) ≡ some etag)
        × Completed setup bucket key upload_id upload selected bytes w etag v
  selecting-ok bucket key upload_id upload c {etag} {w} {v} apart e =
      let (selected, _, selecting, e₁) = bind_inv setup e in
      let (valid, s) = selected_of-ok c selecting in
      let (composite, _, hashing, e₂) = bind_inv setup (rw (← s) at e₁) in
      let (hashed, t) = or_panic-ok _ hashing in
      let (bytes, q, done) =
        finish_upload-ok setup bucket key upload_id upload selected composite apart
          (rw (← t) at e₂) in
      (selected, bytes, valid, hashed ∙ ap some q, done)

  complete_multipart_upload_handler-Finished :
      (bucket key upload_id : Text) (parts : List CompletedPart) {etag : Text} {w v : World setup}
      → IsOutsideParts setup upload_id (setup.tmp_path w.tmp_counter (codes "assemble"))
      → Ends setup (complete_multipart_upload_handler setup bucket key upload_id parts) w etag v
      → Finished bucket key upload_id parts w etag v
  unfolding complete_multipart_upload_handler
  complete_multipart_upload_handler-Finished bucket key upload_id parts {etag} {w} {v} apart e =
      let (o, u, looking, e₁) = bind_inv setup e in
      let (q, calm) = db_read-ok setup (get_multipart upload_id) looking in
      let (upload, _, having, e₂) = bind_inv setup e₁ in
      let (is_it, s) = or_no_upload-ok o having in
      let (rows, x, listing, e₃) = bind_inv setup (rw (← s) at e₂) in
      let (r, calm') = db_read-ok setup (all_parts upload_id) listing in
      let (selected, bytes, valid, composite, done) =
        selecting-ok bucket key upload_id upload
          (validate_complete (map submitted_of parts) (map recorded_of rows))
          (rw (calm'.tmp, calm.tmp) apart) e₃ in
      record {
        upload = upload;
        selected = selected;
        bytes = bytes;
        before = x;
        found = q ∙ is_it;
        valid =
            ap (λ l. validate_complete (map submitted_of parts) (map recorded_of l))
              (ap (λ d. all_parts upload_id d) (sym calm.db) ∙ r)
            ∙ valid;
        composite = composite;
        same = Calm-trans setup calm calm';
        completed = done;
      }

-- After a CompleteMultipartUpload that succeeded, GetObject answers the bytes of the staged parts put
-- together, in the order of the parts that `validate_complete` selected from the recorded ones, with
-- their number, the composite ETag of their digests and the metadata of the upload. The upload and its
-- part rows are gone, and one event for the object is fired. The new temporary name is no name of a
-- part's file, the object's file is outside the staging directory, the table is in order, the metadata
-- are an object of JSON, and the database does not fail later.
pub get_object_handler-complete_multipart_upload_handler :
    (setup : Setup) (bucket key upload_id : Text) (parts : List CompletedPart) (w : World setup)
    (etag : Text)
    → IsOutsideParts setup upload_id (setup.tmp_path w.tmp_counter (codes "assemble"))
    → ((path : Text)
        → PlacedAt setup bucket key path
        → setup.fs.Outside (stage_dir setup upload_id) path)
    → Sorted object_key w.db.objects
    → ((upload : MultipartRow)
        → get_multipart upload_id w.db ≡ some upload
        → setup.is_metadata upload.metadata ≡ true)
    → (complete_multipart_upload_handler setup bucket key upload_id parts w).0 ≡ ok etag
    → (complete_multipart_upload_handler setup bucket key upload_id parts w).1.db_faults ≡ []
    → let v = (complete_multipart_upload_handler setup bucket key upload_id parts w).1 in
      (upload : MultipartRow) × (selected : List RecordedPart) × (out : ObjectOutput)
      × (get_multipart upload_id w.db ≡ some upload)
      × (validate_complete (map submitted_of parts) (map recorded_of (all_parts upload_id w.db))
          ≡ Completion.ok selected)
      × (get_object_handler setup bucket key none v ≡ (ok out, v))
      × (joined setup upload_id selected w.disk ≡ some out.body)
      × (out.content_length ≡ length out.body)
      × (out.e_tag ≡ etag)
      × (composite_etag setup.digests (map (λ p. p.etag_hex) selected) ≡ some etag)
      × (out.metadata ≡ upload.metadata)
      × (get_multipart upload_id v.db ≡ none)
      × (all_parts upload_id v.db ≡ [])
      × (v.fired
          ≡ w.fired ++ created bucket key complete_multipart_upload (length out.body) etag ∷ [])
get_object_handler-complete_multipart_upload_handler setup bucket key upload_id parts w etag apart
      outside sorted parsed h calm =
    let v = (complete_multipart_upload_handler setup bucket key upload_id parts w).1 in
    let f =
      complete_multipart_upload_handler-Finished setup bucket key upload_id parts {v = v} apart
        record { result = h; state = refl } in
    let c = f.completed in
    let row : ObjectRow = completed_row setup bucket key f.upload (length f.bytes) etag c.at_time in
    let stored : v.db ≡ complete_multipart upload_id row w.db =
      c.stored ∙ ap (λ d. complete_multipart upload_id row d) f.same.db in
    let (there, _, uploads, rows) = complete_multipart-reads upload_id row w.db sorted in
    let file = c.file (outside c.path c.placed) in
    let found : get_object bucket key v.db ≡ some row =
      ap (λ d. get_object bucket key d) stored ∙ there in
    let whole : take (length f.bytes - 0) f.bytes ≡ f.bytes =
      take_all (length f.bytes - 0) f.bytes (omega arith) in
    (
      f.upload,
      f.selected,
      output_of setup row (0, row.size) false f.bytes,
      f.found,
      f.valid,
      get_found setup bucket key c.path f.bytes row v calm found c.placed file
          (parsed f.upload f.found),
      ap (joined setup upload_id f.selected) (sym f.same.disk) ∙ c.assembled ∙ ap some (sym whole),
      omega (arith, ap length whole),
      refl,
      f.composite,
      refl,
      ap (λ d. get_multipart upload_id d) stored
          ∙ uploads upload_id
          ∙ rw (text_eq_refl upload_id) refl,
      ap (λ d. all_parts upload_id d) stored ∙ rows upload_id ∙ rw (text_eq_refl upload_id) refl,
      c.fired
          ∙ ap₂ (λ l n. l ++ created bucket key complete_multipart_upload n etag ∷ []) f.same.fired
              (ap length (sym whole)),
    )
