-- ===== src/Store/Copies/Copied.antt =====
-- What a copy that succeeded leaves.
use cubby.Base.{
  &&_left, &&_right, ℕ, ◌≡◌, refl, sym, ap, ◌∙◌, Bool, true, false, not, ◌&&◌, some, [], ◌∷◌, ◌++◌,
  Text, codes, text_eq_iff,
}
use cubby.Notify.{copy, created}
use cubby.Db.{ObjectRow, bucket_exists, put_object}
use cubby.Store.{
  no_such_bucket, invalid_request, Setup, World, Action, ◌>>=◌, return, db_call, fire, now,
}
use cubby.Store.Files.{PlacedAt, rename_into}
use cubby.Store.RoundTrip.{Ends}
use cubby.Store.Outcome.{
  bind_inv, Calm, db_read-ok, db_call-ok, ensure-ok, return-ok, object_path-ok, now-ok, fire-ok,
  copy_into-ok, synced-ok, with_temp-ok, rename_into-ok,
}
use cubby.Store.Copies.{
  CopyObjectInput, is_replace, same_object, copied_row, stage_file_copy, move_bytes, copy_from,
}

module _ (setup : Setup) where
  open setup use {fs, pe}

  stage_file_copy-ok :
      (src bytes : Text) {temp : Text} {w v : World setup}
      → fs.Apart (setup.tmp_path w.tmp_counter (codes "copy")) src
      → fs.read src w.disk ≡ some bytes
      → Ends setup (stage_file_copy setup src) w temp v
      → (fs.read temp v.disk ≡ some bytes) × (v.db ≡ w.db) × (v.fired ≡ w.fired)
  unfolding stage_file_copy
  stage_file_copy-ok src bytes {temp} {w} {v} apart reads e =
      let (u, empty, making, e₁) = with_temp-ok setup (codes "copy") _ e in
      let (_, x, copying, e₂) = bind_inv setup e₁ in
      let (found, here, _, filled, only) = copy_into-ok setup _ src [] empty copying in
      let (q, kept, only') = synced-ok setup _ _ e₂ in
      let same : some found ≡ some bytes = sym here ∙ making.files src apart ∙ reads in
      (
        rw (← q) (kept ∙ filled ∙ same),
        only'.db ∙ only.db ∙ making.db,
        only'.fired ∙ only.fired ∙ making.fired,
      )

  move_bytes-ok :
      (same : Bool) (src_bucket src_key : Text) (input : CopyObjectInput) (src bytes : Text)
      {u : Unit} {w v : World setup}
      → same_object src_bucket src_key input ≡ same
      → PlacedAt setup src_bucket src_key src
      → fs.Apart (setup.tmp_path w.tmp_counter (codes "copy")) src
      → fs.read src w.disk ≡ some bytes
      → Ends setup (move_bytes setup same src_bucket src_key input) w u v
      → (final : Text) × PlacedAt setup input.bucket input.key final
        × (fs.read final v.disk ≡ some bytes)
        × (v.db ≡ w.db)
        × (v.fired ≡ w.fired)
  unfolding move_bytes
  move_bytes-ok true src_bucket src_key input src bytes {u} {w} {v} h at apart reads e =
      let b = &&_left _ _ h in
      let k = &&_right _ _ h in
      let bucket = (text_eq_iff src_bucket input.bucket).0 b in
      let key = (text_eq_iff src_key input.key).0 k in
      rw (← e.state) (src, rw (← bucket, ← key) at, reads, refl, refl)
  move_bytes-ok false src_bucket src_key input src bytes {u} {w} {v} h at apart reads e =
      let (p, _, placing, e₁) = bind_inv setup e in
      let (atp, s) = object_path-ok setup src_bucket src_key placing in
      let (final, _, placing', e₂) = bind_inv setup e₁ in
      let (atf, t) = object_path-ok setup input.bucket input.key placing' in
      let found : p ≡ src = cc (sym atp, at) in moved p final found atf (rw (← t, ← s) at e₂)
    where
      moved :
          (p final : Text)
          → p ≡ src
          → PlacedAt setup input.bucket input.key final
          → Ends setup
              (◌>>=◌ setup (stage_file_copy setup p) (λ temp. rename_into setup temp final))
              w
              u
              v
          → (final : Text) × PlacedAt setup input.bucket input.key final
            × (fs.read final v.disk ≡ some bytes)
            × (v.db ≡ w.db)
            × (v.fired ≡ w.fired)
      moved p final found atf e₂ =
          let (temp, x, staging, renaming) = bind_inv setup (rw found at e₂) in
          let (stored, db, fired) = stage_file_copy-ok src bytes apart reads staging in
          let (file, db', fired') = rename_into-ok setup temp final renaming in
          (final, atf, file ∙ stored, db' ∙ db, fired' ∙ fired)

  -- What the copy leaves and answers: its file has the source's bytes, and its row the source's size
  -- and ETag.
  pub record Copied (input : CopyObjectInput) (row : ObjectRow) (bytes : Text) (w : World setup)
      (answer : Text × ℕ) (v : World setup) : Type 0 where
    pub path : Text
    pub placed : PlacedAt setup input.bucket input.key path
    pub file : fs.read path v.disk ≡ some bytes
    pub stored : v.db ≡ put_object (copied_row input row answer.1) w.db
    pub etag : answer.0 ≡ row.etag
    pub fired : v.fired ≡ w.fired ++ created input.bucket input.key copy row.size row.etag ∷ []

  -- The last steps: the time, the row and the event.
  abbrev commit : CopyObjectInput → ObjectRow → Action setup (Text × ℕ)
  commit input row = ◌>>=◌ setup (now setup) (λ at_time.
      ◌>>=◌ setup (db_call setup (λ db. (tt, put_object (copied_row input row at_time) db))) (λ _.
        ◌>>=◌ setup (fire setup (created input.bucket input.key copy row.size row.etag))
          (λ _. return setup (row.etag, at_time))))

  pub commit-ok :
      (input : CopyObjectInput) (row : ObjectRow) (path bytes : Text) {answer : Text × ℕ}
      {w v : World setup}
      → PlacedAt setup input.bucket input.key path
      → fs.read path w.disk ≡ some bytes
      → Ends setup (commit input row) w answer v
      → Copied input row bytes w answer v
  commit-ok input row path bytes {answer} {w} {v} at reads e =
      let (at_time, u, dating, e₁) = bind_inv setup e in
      let calm = now-ok setup dating in
      let (_, x, writing, e₂) = bind_inv setup e₁ in
      let (_, db, fired, disk) =
        db_call-ok setup (λ db. (tt, put_object (copied_row input row at_time) db)) writing in
      let (_, y, firing, e₃) = bind_inv setup e₂ in
      let (db', disk', fired') = fire-ok setup _ firing in
      let (q, t) = return-ok setup e₃ in
      rw (← q, ← t)
        record {
          path = path;
          placed = at;
          file = ap (λ d. fs.read path d) (disk' ∙ disk ∙ calm.disk) ∙ reads;
          stored = db' ∙ db ∙ ap (λ d. put_object (copied_row input row at_time) d) calm.db;
          etag = refl;
          fired =
              fired'
              ∙ ap (λ f. f ++ created input.bucket input.key copy row.size row.etag ∷ [])
                  (fired ∙ calm.fired);
        }

  -- From the copy of the bytes on.
  moving-ok :
      (src_bucket src_key : Text) (input : CopyObjectInput) (row : ObjectRow) (src bytes : Text)
      {answer : Text × ℕ} {w v : World setup}
      → PlacedAt setup src_bucket src_key src
      → fs.Apart (setup.tmp_path w.tmp_counter (codes "copy")) src
      → fs.read src w.disk ≡ some bytes
      → Ends setup
          (◌>>=◌ setup
            (move_bytes setup (same_object src_bucket src_key input) src_bucket src_key input)
            (λ _. commit input row))
          w
          answer
          v
      → Copied input row bytes w answer v
  moving-ok src_bucket src_key input row src bytes {answer} {w} {v} at apart reads e =
      let (_, u, moving, e₁) = bind_inv setup e in
      let (path, atp, file, db, fired) =
        move_bytes-ok (same_object src_bucket src_key input) src_bucket src_key input src bytes refl
          at apart reads moving in
      let c = commit-ok input row path bytes atp file e₁ in
      record {
        path = c.path;
        placed = c.placed;
        file = c.file;
        stored = c.stored ∙ ap (λ d. put_object (copied_row input row answer.1) d) db;
        etag = c.etag;
        fired =
            c.fired
            ∙ ap (λ f. f ++ created input.bucket input.key copy row.size row.etag ∷ []) fired;
      }

  pub Copied-Calm :
      {input : CopyObjectInput} {row : ObjectRow} {bytes : Text} {answer : Text × ℕ}
      {w u v : World setup}
      → Calm setup w u
      → Copied input row bytes u answer v
      → Copied input row bytes w answer v
  Copied-Calm {input} {row} {bytes} {answer} calm c = record {
    path = c.path;
    placed = c.placed;
    file = c.file;
    stored = c.stored ∙ ap (λ d. put_object (copied_row input row answer.1) d) calm.db;
    etag = c.etag;
    fired =
        c.fired
        ∙ ap (λ f. f ++ created input.bucket input.key copy row.size row.etag ∷ []) calm.fired;
  }

  pub copy_from-ok :
      (src_bucket src_key : Text) (input : CopyObjectInput) (row : ObjectRow) (src bytes : Text)
      {answer : Text × ℕ} {w v : World setup}
      → PlacedAt setup src_bucket src_key src
      → fs.Apart (setup.tmp_path w.tmp_counter (codes "copy")) src
      → fs.read src w.disk ≡ some bytes
      → Ends setup (copy_from setup src_bucket src_key input row) w answer v
      → Copied input row bytes w answer v
  unfolding copy_from
  copy_from-ok src_bucket src_key input row src bytes {answer} {w} {v} at apart reads e =
      let (b, u, reading, e₁) = bind_inv setup e in
      let (_, calm) = db_read-ok setup (bucket_exists input.bucket) reading in
      let (_, _, checking, e₂) = bind_inv setup e₁ in
      let (_, s) = ensure-ok setup no_such_bucket b checking in
      let (_, _, allowing, e₃) = bind_inv setup e₂ in
      let (_, t) =
        ensure-ok setup invalid_request
          (not (same_object src_bucket src_key input && not (is_replace input.metadata_directive)))
          allowing in
      Copied-Calm calm (
        moving-ok src_bucket src_key input row src bytes at (rw (calm.tmp) apart)
          (ap (λ d. fs.read src d) calm.disk ∙ reads) (rw (← t, ← s) at e₃))
