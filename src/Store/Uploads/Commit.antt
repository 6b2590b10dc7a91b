-- ===== src/Store/Uploads/Commit.antt =====
-- What the last steps of a CompleteMultipartUpload that ended well did, from the assembly on.
use cubby.Base.{ℕ, ◌≡◌, refl, ap, ap₂, ◌∙◌, some, List, [], ◌∷◌, ◌++◌, Text, codes, length}
use cubby.Multipart.{RecordedPart}
use cubby.Notify.{complete_multipart_upload, created}
use cubby.Db.{MultipartRow, complete_multipart}
use cubby.Store.{Removal, Setup, World, Action, ◌>>=◌, return, db_call, object_path, fire, now}
use cubby.Store.RoundTrip.{Ends}
use cubby.Store.Outcome.{
  bind_inv, db_call-ok, return-ok, object_path-ok, now-ok, fire-ok, rename_into-ok,
}
use cubby.Store.Files.{PlacedAt, rename_into}
use cubby.Store.Uploads.{stage_dir, completed_row, try_remove, finish_upload}
use cubby.Store.Uploads.Assembly.{joined, IsOutsideParts, assemble_parts-ok}

module _ (setup : Setup) where
  open setup use {fs, digests}

  -- What the completion leaves, for the parts that were selected and their bytes.
  pub record Completed (bucket key upload_id : Text) (upload : MultipartRow)
      (selected : List RecordedPart) (bytes : Text) (w : World setup) (etag : Text)
      (v : World setup) : Type 0 where
    pub path : Text
    pub at_time : ℕ
    pub placed : PlacedAt setup bucket key path
    pub assembled : joined setup upload_id selected w.disk ≡ some bytes
    pub file : fs.Outside (stage_dir setup upload_id) path → fs.read path v.disk ≡ some bytes
    pub stored :
        v.db
        ≡ complete_multipart upload_id
            (completed_row setup bucket key upload (length bytes) etag at_time)
            w.db
    pub fired :
        v.fired ≡ w.fired ++ created bucket key complete_multipart_upload (length bytes) etag ∷ []

  -- The last steps, from the time on.
  abbrev close : Text → Text → Text → MultipartRow → ℕ → Text → Action setup Text
  close bucket key upload_id upload size composite = ◌>>=◌ setup (now setup) (λ at_time.
      ◌>>=◌ setup
        (db_call setup (λ db. (
          tt,
          complete_multipart upload_id
              (completed_row setup bucket key upload size composite at_time) db,
        )))
        (λ _.
          ◌>>=◌ setup (fire setup (created bucket key complete_multipart_upload size composite))
            (λ _.
              ◌>>=◌ setup (try_remove setup (fs.remove_dir_all (stage_dir setup upload_id)))
                (λ _. return setup composite))))

  record Closed (bucket key upload_id : Text) (upload : MultipartRow) (size : ℕ) (composite : Text)
      (w : World setup) (etag : Text) (v : World setup) : Type 0 where
    at_time : ℕ
    answer : composite ≡ etag
    disk : v.disk ≡ (fs.remove_dir_all (stage_dir setup upload_id) w.disk).1
    stored :
        v.db
        ≡ complete_multipart upload_id
            (completed_row setup bucket key upload size composite at_time)
            w.db
    fired : v.fired ≡ w.fired ++ created bucket key complete_multipart_upload size composite ∷ []

  removed-ok :
      (f : fs.Disk → Removal × fs.Disk) {u : Unit} {w v : World setup}
      → Ends setup (try_remove setup f) w u v
      → (v.disk ≡ (f w.disk).1) × (v.db ≡ w.db) × (v.fired ≡ w.fired)
  removed-ok f e = rw (← e.state) (refl, refl, refl)

  close-ok :
      (bucket key upload_id : Text) (upload : MultipartRow) (size : ℕ) (composite : Text)
      {etag : Text} {w v : World setup}
      → Ends setup (close bucket key upload_id upload size composite) w etag v
      → Closed bucket key upload_id upload size composite w etag v
  close-ok bucket key upload_id upload size composite {etag} {w} {v} e =
      let row = completed_row setup bucket key upload size composite in
      let (at_time, u, dating, e₁) = bind_inv setup e in
      let calm = now-ok setup dating in
      let (_, x, writing, e₂) = bind_inv setup e₁ in
      let (_, db, fired, disk) =
        db_call-ok setup (λ db. (tt, complete_multipart upload_id (row at_time) db)) writing in
      let (_, y, firing, e₃) = bind_inv setup e₂ in
      let (db', disk', fired') = fire-ok setup _ firing in
      let (_, z, removing, e₄) = bind_inv setup e₃ in
      let (disk'', db'', fired'') =
        removed-ok (fs.remove_dir_all (stage_dir setup upload_id)) removing in
      let (q, t) = return-ok setup e₄ in
      rw (← t) record {
        at_time = at_time;
        answer = q;
        disk =
            disk''
            ∙ ap (λ d. (fs.remove_dir_all (stage_dir setup upload_id) d).1)
                (disk' ∙ disk ∙ calm.disk);
        stored = db'' ∙ db' ∙ db ∙ ap (λ d. complete_multipart upload_id (row at_time) d) calm.db;
        fired =
            fired''
            ∙ fired'
            ∙ ap (λ f. f ++ created bucket key complete_multipart_upload size composite ∷ [])
                (fired ∙ calm.fired);
      }

  -- The file is in place when the row is written.
  placing-ok :
      (bucket key upload_id : Text) (upload : MultipartRow) (selected : List RecordedPart)
      (composite temp bytes : Text) (size : ℕ) {etag : Text} {w u v : World setup}
      → joined setup upload_id selected w.disk ≡ some bytes
      → size ≡ length bytes
      → fs.read temp u.disk ≡ some bytes
      → u.db ≡ w.db
      → u.fired ≡ w.fired
      → Ends setup
          (◌>>=◌ setup (object_path setup bucket key) (λ final_path.
            ◌>>=◌ setup
              (rename_into setup temp final_path)
              (λ _. close bucket key upload_id upload size composite)))
          u
          etag
          v
      → (composite ≡ etag) × Completed bucket key upload_id upload selected bytes w etag v
  placing-ok bucket key upload_id upload selected composite temp bytes size {etag} {w} {u} {v} found
        sum reads db fired e =
      let (path, _, placing, e₁) = bind_inv setup e in
      let (at, s) = object_path-ok setup bucket key placing in
      let (_, x, renaming, e₂) = bind_inv setup (rw (← s) at e₁) in
      let (moved, db', fired') = rename_into-ok setup temp path renaming in
      let c = close-ok bucket key upload_id upload size composite e₂ in
      (
        c.answer,
        record {
          path = path;
          at_time = c.at_time;
          placed = at;
          assembled = found;
          file = λ outside.
              ap (λ d. fs.read path d) c.disk
              ∙ fs.remove_dir_all_outside (stage_dir setup upload_id) path x.disk outside
              ∙ moved
              ∙ reads;
          stored =
              c.stored
              ∙ ap
                  (λ d.
                    complete_multipart upload_id
                      (completed_row setup bucket key upload size composite c.at_time) d)
                  (db' ∙ db)
              ∙ ap₂
                  (λ n t.
                    complete_multipart upload_id
                      (completed_row setup bucket key upload n t c.at_time) w.db)
                  sum c.answer;
          fired =
              c.fired
              ∙ ap (λ f. f ++ created bucket key complete_multipart_upload size composite ∷ [])
                  (fired' ∙ fired)
              ∙ ap₂ (λ n t. w.fired ++ created bucket key complete_multipart_upload n t ∷ []) sum
                  c.answer;
        },
      )

  pub finish_upload-ok :
      (bucket key upload_id : Text) (upload : MultipartRow) (selected : List RecordedPart)
      (composite : Text) {etag : Text} {w v : World setup}
      → IsOutsideParts setup upload_id (setup.tmp_path w.tmp_counter (codes "assemble"))
      → Ends setup (finish_upload setup bucket key upload_id upload selected composite) w etag v
      → (bytes : Text) × (composite ≡ etag)
        × Completed bucket key upload_id upload selected bytes w etag v
  unfolding finish_upload
  finish_upload-ok bucket key upload_id upload selected composite {etag} {w} {v} apart e =
      let (staged, u, assembling, e₁) = bind_inv setup e in
      let (bytes, found, size, reads, db, fired) =
        assemble_parts-ok setup upload_id selected apart assembling in
      let (q, c) =
        placing-ok bucket key upload_id upload selected composite staged.0 bytes staged.1 found size
          reads db fired e₁ in
      (bytes, q, c)
