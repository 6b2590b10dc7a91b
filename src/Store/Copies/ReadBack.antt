-- ===== src/Store/Copies/ReadBack.antt =====
-- What a CopyObject that ended well did, and that GetObject reads the copy.
use cubby.Base.{
  ◌-◌, ℕ, ◌≡◌, refl, ap, ◌∙◌, true, false, none, some, [], ◌∷◌, ◌++◌, Text, codes, text_eq_refl,
  length, take_all, arith,
}
use cubby.Notify.{copy, created}
use cubby.Db.{ObjectRow, object_key, get_object}
use cubby.Db.Table.{Sorted}
use cubby.Db.Laws.{get_object-put_object}
use cubby.Store.Files.{PlacedAt}
use cubby.Store.{ok, Setup, World, output_of, get_object_handler, ObjectOutput}
use cubby.Store.RoundTrip.{Ends}
use cubby.Store.PutGet.{get_found}
use cubby.Store.Outcome.{bind_inv, db_read-ok, or_missing-ok}
use cubby.Store.Copies.{
  CopySource, bucket_key, CopyObjectInput, described, copied_row, copy_of, copy_object_handler,
}
use cubby.Store.Copies.Copied.{Copied, Copied-Calm, copy_from-ok}

module _ (setup : Setup) where
  open setup use {fs, pe}

  copy_of-Copied :
      (src_bucket src_key : Text) (source : CopySource) (input : CopyObjectInput) (row : ObjectRow)
      (src bytes : Text) {answer : Text × ℕ} {w v : World setup}
      → source ≡ bucket_key src_bucket src_key
      → get_object src_bucket src_key w.db ≡ some row
      → PlacedAt setup src_bucket src_key src
      → fs.Apart (setup.tmp_path w.tmp_counter (codes "copy")) src
      → fs.read src w.disk ≡ some bytes
      → Ends setup (copy_of setup source input) w answer v
      → Copied setup input row bytes w answer v
  copy_of-Copied src_bucket src_key source input row src bytes {answer} {w} {v} named found at apart
        reads e =
      let (o, u, looking, e₁) = bind_inv setup (rw named at e) in
      let (q, calm) = db_read-ok setup (get_object src_bucket src_key) looking in
      let (x, _, having, e₂) = bind_inv setup e₁ in
      let (is_it, s) = or_missing-ok setup src_bucket o having in
      let same : x ≡ row = cc (is_it, q, found) in
      let c =
        copy_from-ok setup src_bucket src_key input row src bytes at (rw calm.tmp apart)
          (ap (λ d. fs.read src d) calm.disk ∙ reads) (rw (same, ← s) at e₂) in
      Copied-Calm setup calm c

-- After a CopyObject that succeeded, of an object whose row and file are there and whose file has as
-- many bytes as the row says, `REPLACE` on itself included, GetObject of the copy answers the bytes of
-- the source and its ETag, with the content type and the metadata that the directive asks for, and
-- changes nothing; one event of kind Copy is fired. The file stands at the path of the source's key, the
-- new temporary name is no other name of it, the table is in order, the metadata are an object of JSON,
-- and the database does not fail later.
pub get_object_handler-copy_object_handler :
    (setup : Setup) (src_bucket src_key : Text) (input : CopyObjectInput) (row : ObjectRow)
    (src bytes : Text) (w : World setup) (etag : Text) (at_time : ℕ)
    → input.copy_source ≡ bucket_key src_bucket src_key
    → get_object src_bucket src_key w.db ≡ some row
    → PlacedAt setup src_bucket src_key src
    → setup.fs.Apart (setup.tmp_path w.tmp_counter (codes "copy")) src
    → setup.fs.read src w.disk ≡ some bytes
    → length bytes ≡ row.size
    → Sorted object_key w.db.objects
    → setup.is_metadata (described input row).1 ≡ true
    → (copy_object_handler setup input w).0 ≡ ok (etag, at_time)
    → (copy_object_handler setup input w).1.db_faults ≡ []
    → let v = (copy_object_handler setup input w).1 in
      (out : ObjectOutput) × (get_object_handler setup input.bucket input.key none v ≡ (ok out, v))
      × (out.body ≡ bytes)
      × (out.e_tag ≡ row.etag)
      × (etag ≡ row.etag)
      × (out.content_type ≡ (described input row).0)
      × (out.metadata ≡ (described input row).1)
      × (out.last_modified ≡ at_time)
      × (v.fired ≡ w.fired ++ created input.bucket input.key copy row.size row.etag ∷ [])
unfolding copy_object_handler
get_object_handler-copy_object_handler setup src_bucket src_key input row src bytes w etag at_time
      source found at apart reads size sorted parsed h calm =
    let v = (copy_object_handler setup input w).1 in
    let c =
      copy_of-Copied setup src_bucket src_key input.copy_source input row src bytes {v = v} source
        found at apart reads record { result = h; state = refl } in
    let copied : ObjectRow = copied_row input row at_time in
    let stored : get_object input.bucket input.key v.db ≡ some copied =
      ap (λ d. get_object input.bucket input.key d) c.stored
      ∙ get_object-put_object input.bucket input.key copied w.db sorted
      ∙ rw (text_eq_refl input.bucket, text_eq_refl input.key) refl in
    (
      output_of setup copied (0, copied.size) false bytes,
      get_found setup input.bucket input.key c.path bytes copied v calm stored c.placed c.file
          parsed,
      take_all (row.size - 0) bytes (omega arith),
      refl,
      c.etag,
      refl,
      refl,
      refl,
      c.fired,
    )
