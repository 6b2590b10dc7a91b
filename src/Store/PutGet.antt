-- ===== src/Store/PutGet.antt =====
-- The round trip through the store: GetObject after PutObject.
use cubby.Base.{
  ◌-◌, ◌≡◌, refl, sym, ap, ◌∙◌, Bool, true, false, Option, none, some, List, [], ◌∷◌, Text,
  unwrap_or, length, text_eq_refl, take_all, arith,
}
use cubby.Utf8.{as_bytes}
use cubby.Keypath.{key_to_relpath}
use cubby.Notify.{put, ObjectEvent, created}
use cubby.Db.{ObjectRow, object_key, bucket_exists, put_object, get_object}
use cubby.Db.Table.{Sorted}
use cubby.Db.Laws.{get_object-put_object}
use cubby.Store.{
  S3Error, ok, Setup, World, ◌>>=◌, return, answered, db_read, path_of, fire, hex_md5, row_of,
  put_bytes, ensure, put_object_handler, output_of, get_object_handler, ObjectOutput,
  no_such_bucket,
}
use cubby.Store.RoundTrip.{arrived, Ends, bind-ok}
use cubby.Store.ReadBack.{Stored, put_bytes-ok}

module _ (setup : Setup) where
  open setup use {fs, pe}

  read_answer-db :
      (faults : List Bool) (b : Bool) (u : World setup)
      → (answered setup faults (b, u.db) u).1.db ≡ u.db
  read_answer-db [] b u = refl
  read_answer-db (true ∷ faults) b u = refl
  read_answer-db (false ∷ faults) b u = refl

  ensure-ok :
      (e : S3Error) (b : Bool) (u v : World setup) → Ends setup (ensure setup e b) u tt v → u ≡ v
  ensure-ok e true u v h = h.state
  ensure-ok e false u v h = cc h.result

  checked-db :
      (bucket : Text) (w v : World setup)
      → Ends setup
          (◌>>=◌ setup (db_read setup (bucket_exists bucket)) (ensure setup no_such_bucket))
          w
          tt
          v
      → v.db ≡ w.db
  checked-db bucket w v e =
      let (b, _, ensuring) =
        bind-ok setup (db_read setup (bucket_exists bucket)) (ensure setup no_such_bucket) w tt v
          e in
      ap (λ x. x.db) (sym (ensure-ok no_such_bucket b _ v ensuring))
      ∙ read_answer-db w.db_faults (bucket_exists bucket w.db) w

  -- What a successful handler leaves and answers.
  fired-ok :
      (event : ObjectEvent) (tag etag : Text) (u v : World setup)
      → Ends setup (◌>>=◌ setup (fire setup event) (λ _. return setup tag)) u etag v
      → (tag ≡ etag) × (v.db ≡ u.db) × (v.disk ≡ u.disk)
  unfolding ◌>>=◌
  fired-ok event tag etag u v e =
      let same : tag ≡ etag = cc e.result in
      (same, ap (λ x. x.db) (sym e.state), ap (λ x. x.disk) (sym e.state))

  stores-ok :
      (bucket key : Text) (body : Option (List (Option Text))) (content_type : Option Text)
      (metadata : Text) (u : World setup) (etag : Text) (v : World setup)
      → Ends setup
          (◌>>=◌ setup (put_bytes setup bucket key body content_type metadata) (λ stored.
            ◌>>=◌ setup
              (fire setup (created bucket key put stored.1 stored.0))
              (λ _. return setup stored.0)))
          u
          etag
          v
      → Stored setup bucket key (arrived (unwrap_or body [])) content_type metadata u.db v
        × (etag ≡ hex_md5 setup (arrived (unwrap_or body [])))
  stores-ok bucket key body content_type metadata u etag v e =
      let (stored, putting, firing) =
        bind-ok setup (put_bytes setup bucket key body content_type metadata) _ u etag v e in
      let (s, q) = put_bytes-ok setup bucket key body content_type metadata u stored _ putting in
      let (tag, db, disk) =
        fired-ok (created bucket key put stored.1 stored.0) stored.0 etag _ v firing in
      (
        record {
          path = s.path;
          at_time = s.at_time;
          placed = s.placed;
          file = ap (λ d. fs.read s.path d) disk ∙ s.file;
          row = db ∙ s.row;
        },
        sym tag ∙ ap (λ x. x.0) q,
      )

  put_object_handler-ok :
      (bucket key : Text) (body : Option (List (Option Text))) (content_type : Option Text)
      (metadata : Text) (w : World setup) (etag : Text) (v : World setup)
      → Ends setup (put_object_handler setup bucket key body content_type metadata) w etag v
      → Stored setup bucket key (arrived (unwrap_or body [])) content_type metadata w.db v
        × (etag ≡ hex_md5 setup (arrived (unwrap_or body [])))
  unfolding put_object_handler
  put_object_handler-ok bucket key body content_type metadata w etag v e =
      let (_, checking, storing) =
        bind-ok setup
          (◌>>=◌ setup (db_read setup (bucket_exists bucket)) (ensure setup no_such_bucket)) _ w
          etag v e in
      let (s, q) = stores-ok bucket key body content_type metadata _ etag v storing in
      (
        record {
          path = s.path;
          at_time = s.at_time;
          placed = s.placed;
          file = s.file;
          row =
              s.row
              ∙ ap
                  (λ d.
                    put_object
                      (row_of setup bucket key (arrived (unwrap_or body [])) content_type metadata
                        s.at_time)
                      d)
                  (checked-db bucket w _ checking);
        },
        q,
      )

  pub get_found :
      (bucket key path bytes : Text) (row : ObjectRow) (v : World setup)
      → v.db_faults ≡ []
      → get_object bucket key v.db ≡ some row
      → path_of setup setup.root (as_bytes bucket) (key_to_relpath pe (as_bytes key)) ≡ ok path
      → fs.read path v.disk ≡ some bytes
      → setup.is_metadata row.metadata ≡ true
      → get_object_handler setup bucket key none v
        ≡ (ok (output_of setup row (0, row.size) false bytes), v)
  unfolding get_object_handler get_object ◌>>=◌
  get_found bucket key path bytes row v calm found placed file parsed =
      rw (calm, found, placed, file, parsed) refl

-- After a PutObject that succeeded, on a table in order, GetObject without a range answers the bytes
-- that arrived, their number, the ETag that PutObject answered, which is their MD5 in hex, and the
-- metadata, if those are an object of JSON and the database does not fail then.
pub get_object_handler-put_object_handler :
    (setup : Setup) (bucket key : Text) (body : Option (List (Option Text)))
    (content_type : Option Text) (metadata : Text) (w : World setup) (etag : Text)
    → Sorted object_key w.db.objects
    → setup.is_metadata metadata ≡ true
    → (put_object_handler setup bucket key body content_type metadata w).0 ≡ ok etag
    → (put_object_handler setup bucket key body content_type metadata w).1.db_faults ≡ []
    → let v = (put_object_handler setup bucket key body content_type metadata w).1 in
      let bytes = arrived (unwrap_or body []) in
      (out : ObjectOutput) × (get_object_handler setup bucket key none v ≡ (ok out, v))
      × (out.body ≡ bytes)
      × (out.content_length ≡ length bytes)
      × (out.e_tag ≡ etag)
      × (etag ≡ hex_md5 setup bytes)
      × (out.metadata ≡ metadata)
get_object_handler-put_object_handler setup bucket key body content_type metadata w etag sorted
      parsed h calm =
    let bytes = arrived (unwrap_or body []) in
    let v = (put_object_handler setup bucket key body content_type metadata w).1 in
    let (s, q) =
      put_object_handler-ok setup bucket key body content_type metadata w etag v
        record { result = h; state = refl } in
    let row : ObjectRow = row_of setup bucket key bytes content_type metadata s.at_time in
    let found : get_object bucket key v.db ≡ some row =
      ap (λ d. get_object bucket key d) s.row
      ∙ get_object-put_object bucket key row w.db sorted
      ∙ rw (text_eq_refl bucket, text_eq_refl key) refl in
    (
      output_of setup row (0, row.size) false bytes,
      get_found setup bucket key s.path bytes row v calm found s.placed s.file parsed,
      take_all (length bytes - 0) bytes (omega arith),
      omega arith,
      sym q,
      q,
      refl,
    )
