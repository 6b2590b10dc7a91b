-- ===== src/Store/ReadBack.antt =====
-- What a successful PutObject stores, and that GetObject reads it back.
use cubby.Base.{
  ℕ, ◌≡◌, refl, sym, ap, ◌∙◌, Bool, true, false, Option, none, some, List, [], ◌∷◌, Text, unwrap_or,
  length,
}
use cubby.Utf8.{as_bytes}
use cubby.Keypath.{key_to_relpath}
use cubby.Db.{Db, put_object}
use cubby.Store.{
  ok, Setup, World, ◌>>=◌, return, answered, db_call, io, or_clean, path_of, object_path, now,
  stream_to_temp, make_parent, hex_md5, row_of, put_bytes,
}
use cubby.Store.RoundTrip.{arrived, Ends, bind-ok, Kept, io-ok, or_clean-ok}
use cubby.Store.Staging.{stream_to_temp-ok}

module _ (setup : Setup) where
  open setup use {fs, pe}

  make_parent-ok :
      (temp p : Text) (dir : Option Text) (u v : World setup)
      → Ends setup (make_parent setup temp dir) u tt v
      → (fs.read p v.disk ≡ fs.read p u.disk) × Kept setup u v
  make_parent-ok temp p none u v e =
      let s = e.state in
      (ap (λ x. fs.read p x.disk) (sym s), rw (← s) record { db = refl; faults = refl })
  make_parent-ok temp p (some dir) u v e =
      let (_, disk, kept) =
        io-ok setup (fs.create_dir_all dir) u v tt (or_clean-ok setup temp _ u tt v e) in
      (rw disk (fs.read-create_dir_all dir p u.disk), kept)

  rename-ok :
      (temp final : Text) (u v : World setup)
      → Ends setup (or_clean setup temp (io setup (fs.rename temp final))) u tt v
      → (fs.read final v.disk ≡ fs.read temp u.disk) × Kept setup u v
  rename-ok temp final u v e =
      let (moved, disk, kept) =
        io-ok setup (fs.rename temp final) u v tt (or_clean-ok setup temp _ u tt v e) in
      (rw disk (fs.read-rename temp final u.disk moved), kept)

  write_answer :
      (faults : List Bool) (db : Db) (u v : World setup)
      → (answered setup faults (tt, db) u).0 ≡ ok tt
      → (answered setup faults (tt, db) u).1 ≡ v
      → (v.db ≡ db) × (v.disk ≡ u.disk)
  write_answer [] db u v q s = (ap (λ x. x.db) (sym s), ap (λ x. x.disk) (sym s))
  write_answer (true ∷ faults) db u v q s = cc
  write_answer (false ∷ faults) db u v q s = (ap (λ x. x.db) (sym s), ap (λ x. x.disk) (sym s))

  -- The object as it is stored: its file has the bytes, and its row describes them.
  pub record Stored (bucket key : Text) (bytes : Text) (content_type : Option Text)
      (metadata : Text) (before : Db) (v : World setup) : Type 0 where
    pub path : Text
    pub at_time : ℕ
    pub placed : (object_path setup bucket key v).0 ≡ ok path
    pub file : fs.read path v.disk ≡ some bytes
    pub row : v.db ≡ put_object (row_of setup bucket key bytes content_type metadata at_time) before

  -- The last steps, from the rename on.
  commit-ok :
      (bucket key temp final bytes : Text) (content_type : Option Text) (metadata : Text)
      (u : World setup) (answer : Text × ℕ) (v : World setup)
      → path_of setup setup.root (as_bytes bucket) (key_to_relpath pe (as_bytes key)) ≡ ok final
      → fs.read temp u.disk ≡ some bytes
      → Ends setup
          (◌>>=◌ setup (or_clean setup temp (io setup (fs.rename temp final))) (λ _.
            ◌>>=◌ setup (now setup) (λ at_time.
              ◌>>=◌ setup
                (db_call setup (λ db. (
                  tt,
                  put_object (row_of setup bucket key bytes content_type metadata at_time) db,
                )))
                (λ _. return setup (hex_md5 setup bytes, length bytes)))))
          u
          answer
          v
      → Stored bucket key bytes content_type metadata u.db v
        × (answer ≡ (hex_md5 setup bytes, length bytes))
  commit-ok bucket key temp final bytes content_type metadata u answer v p h e =
      let (_, renaming, dating) =
        bind-ok setup (or_clean setup temp (io setup (fs.rename temp final)))
          (λ _. ◌>>=◌ setup (now setup) (λ at_time.
            ◌>>=◌ setup
              (db_call setup (λ db.
                (tt, put_object (row_of setup bucket key bytes content_type metadata at_time) db)))
              (λ _. return setup (hex_md5 setup bytes, length bytes))))
          u answer v e in
      let (moved, kept) = rename-ok temp final u _ renaming in
      let (at_time, _, writing) =
        bind-ok setup (now setup)
          (λ at_time.
            ◌>>=◌ setup
              (db_call setup (λ db.
                (tt, put_object (row_of setup bucket key bytes content_type metadata at_time) db)))
              (λ _. return setup (hex_md5 setup bytes, length bytes)))
          _ answer v dating in
      let (_, inserting, ended) =
        bind-ok setup
          (db_call setup (λ db.
            (tt, put_object (row_of setup bucket key bytes content_type metadata at_time) db)))
          (λ _. return setup (hex_md5 setup bytes, length bytes)) _ answer v writing in
      let (db, disk) = write_answer _ _ _ v inserting.result ended.state in
      (
        record {
          path = final;
          at_time = at_time;
          placed = p;
          file = rw disk (moved ∙ h);
          row =
              db
              ∙ ap (λ d. put_object (row_of setup bucket key bytes content_type metadata at_time) d)
                  kept.db;
        },
        answered_with (hex_md5 setup bytes, length bytes) answer ended.result,
      )
    where
      answered_with : (a b : Text × ℕ) → ok a ≡ ok b → b ≡ a
      answered_with a b q = cc

  staging-ok :
      (bucket key final : Text) (body : Option (List (Option Text))) (content_type : Option Text)
      (metadata : Text) (w : World setup) (answer : Text × ℕ) (v : World setup)
      → path_of setup setup.root (as_bytes bucket) (key_to_relpath pe (as_bytes key)) ≡ ok final
      → Ends setup
          (◌>>=◌ setup (stream_to_temp setup body) (λ staged.
            ◌>>=◌ setup (make_parent setup staged.0 (fs.parent final)) (λ _.
              ◌>>=◌ setup (or_clean setup staged.0 (io setup (fs.rename staged.0 final))) (λ _.
                ◌>>=◌ setup (now setup) (λ at_time.
                  ◌>>=◌ setup
                    (db_call setup (λ db. (
                      tt,
                      put_object
                          (row_of setup bucket key staged.1 content_type metadata at_time)
                          db,
                    )))
                    (λ _. return setup (hex_md5 setup staged.1, length staged.1)))))))
          w
          answer
          v
      → Stored bucket key (arrived (unwrap_or body [])) content_type metadata w.db v
        × (answer
            ≡ (hex_md5 setup (arrived (unwrap_or body [])), length (arrived (unwrap_or body []))))
  staging-ok bucket key final body content_type metadata w answer v p e =
      let (staged, streamed, rest) = bind-ok setup (stream_to_temp setup body) _ w answer v e in
      let s = stream_to_temp-ok setup body w staged _ streamed in
      let (_, parenting, committing) =
        bind-ok setup (make_parent setup staged.0 (fs.parent final)) _ _ answer v rest in
      let (same, kept) = make_parent-ok staged.0 staged.0 (fs.parent final) _ _ parenting in
      let (stored, q) =
        commit-ok bucket key staged.0 final staged.1 content_type metadata _ answer v p
          (same ∙ s.stored) committing in
      rw (← s.bytes) (
        record {
          path = stored.path;
          at_time = stored.at_time;
          placed = stored.placed;
          file = stored.file;
          row =
              stored.row
              ∙ ap
                  (λ d.
                    put_object
                      (row_of setup bucket key staged.1 content_type metadata stored.at_time) d)
                  (kept.db ∙ s.kept.db);
        },
        q,
      )

  pub put_bytes-ok :
      (bucket key : Text) (body : Option (List (Option Text))) (content_type : Option Text)
      (metadata : Text) (w : World setup) (answer : Text × ℕ) (v : World setup)
      → Ends setup (put_bytes setup bucket key body content_type metadata) w answer v
      → Stored bucket key (arrived (unwrap_or body [])) content_type metadata w.db v
        × (answer
            ≡ (hex_md5 setup (arrived (unwrap_or body [])), length (arrived (unwrap_or body []))))
  unfolding put_bytes
  put_bytes-ok bucket key body content_type metadata w answer v e =
      let (final, placing, streaming) =
        bind-ok setup (object_path setup bucket key) _ w answer v e in
      staging-ok bucket key final body content_type metadata w answer v placing.result streaming
