-- ===== src/Reindex/Complete.antt =====
-- A scan that ends well leaves a row for every file.
use cubby.Base.{
  ℕ, ◌≡◌, refl, ap, ◌∙◌, inl, inr, Bool, true, false, Option, none, some, List, [], ◌∷◌, Text,
  text_eq_refl, is_some, Bool-cases,
}
use cubby.Keypath.{PercentEncoding, push}
use cubby.Multipart.{Digests}
use cubby.Db.{
  Db, BucketRow, ObjectRow, bucket_key, bucket_exists, create_bucket, put_object, get_object,
}
use cubby.Db.Table.{key_eq_refl, select_row-upsert}
use cubby.Db.Laws.{get_object-put_object}
use cubby.Reindex.{
  Node, file, directory, symlink, special, unknown, Directory, end, broken, entry, Scan, Action,
  after, ◌>>=◌, answered, db_call, count, indexed, adopted, key_at, indexed_row, add_row,
  unless_there, index_file, index_node, index_dir, bucket_of, adopt, index_bucket, visit, visit_all,
  run,
}
use cubby.Reindex.Adds.{Extends, InOrder, Additive}
use cubby.Reindex.Additive.{
  index_node-Additive, index_dir-Additive, visit-Additive, visit_all-Additive, adopt-Adds,
}

module _ (pe : PercentEncoding) (digests : Digests) where
  -- Every file of a node or a directory has a row under the key of its path, and nothing was left out
  -- by an error.
  unfoldable mutual
    pub NodeHas : Text → Text → Node → Db → Type 0
    NodeHas bucket rel (file content) db =
        is_some (get_object bucket (key_at pe digests rel) db) ≡ true
    NodeHas bucket rel (directory d) db = DirectoryHas bucket rel d db
    NodeHas bucket rel symlink db = Unit
    NodeHas bucket rel special db = Unit
    NodeHas bucket rel unknown db = ⊥

    pub DirectoryHas : Text → Text → Directory → Db → Type 0
    DirectoryHas bucket dir end db = Unit
    DirectoryHas bucket dir broken db = ⊥
    DirectoryHas bucket dir (entry name mtime node rest) db =
        NodeHas bucket (push dir name) node db × DirectoryHas bucket dir rest db

  -- Every directory is a bucket that is there, and its files have rows.
  abbrev pub BucketHas : Text → Node → Db → Type 0
  BucketHas name (file content) db = Unit
  BucketHas name (directory d) db =
      (bucket_exists (bucket_of pe digests name) db ≡ true)
      × DirectoryHas (bucket_of pe digests name) [] d db
  BucketHas name symlink db = Unit
  BucketHas name special db = Unit
  BucketHas name unknown db = ⊥

  abbrev pub AllHave : Directory → Db → Type 0
  AllHave end db = Unit
  AllHave broken db = ⊥
  AllHave (entry name mtime node rest) db = BucketHas name node db × AllHave rest db

  still_there :
      (bucket key : Text) (o : Option ObjectRow) (db later : Db)
      → get_object bucket key db ≡ o
      → Extends db later
      → is_some o ≡ true
      → is_some (get_object bucket key later) ≡ true
  still_there bucket key none db later e x h = cc
  still_there bucket key (some row) db later e x h = rw (x.rows bucket key row e) refl

  mutual
    unfolding NodeHas DirectoryHas

    NodeHas-later :
        (bucket rel : Text) (node : Node) (db later : Db)
        → Extends db later
        → NodeHas bucket rel node db
        → NodeHas bucket rel node later
    NodeHas-later bucket rel (file content) db later x h =
        still_there bucket (key_at pe digests rel) _ db later refl x h
    NodeHas-later bucket rel (directory d) db later x h =
        DirectoryHas-later bucket rel d db later x h
    NodeHas-later bucket rel symlink db later x h = tt
    NodeHas-later bucket rel special db later x h = tt
    NodeHas-later bucket rel unknown db later x h = h

    DirectoryHas-later :
        (bucket dir : Text) (d : Directory) (db later : Db)
        → Extends db later
        → DirectoryHas bucket dir d db
        → DirectoryHas bucket dir d later
    DirectoryHas-later bucket dir end db later x h = tt
    DirectoryHas-later bucket dir broken db later x h = h
    DirectoryHas-later bucket dir (entry name mtime node rest) db later x (h, g) = (
      NodeHas-later bucket (push dir name) node db later x h,
      DirectoryHas-later bucket dir rest db later x g,
    )

  BucketHas-later :
      (name : Text) (node : Node) (db later : Db)
      → Extends db later
      → BucketHas name node db
      → BucketHas name node later
  BucketHas-later name (file content) db later x h = tt
  BucketHas-later name (directory d) db later x (h, g) =
      (x.buckets _ h, DirectoryHas-later (bucket_of pe digests name) [] d db later x g)
  BucketHas-later name symlink db later x h = tt
  BucketHas-later name special db later x h = tt
  BucketHas-later name unknown db later x h = h

  -- Where both parts of a bind end well.
  after-ok :
      {A B : Type 0} (r : Option A) (t : Scan) (k : A → Action B) (b : B)
      → (after r t k).0 ≡ some b
      → (a : A) × (r ≡ some a) × ((k a t).0 ≡ some b) × ((after r t k).1 ≡ (k a t).1)
  after-ok none t k b h = cc
  after-ok (some a) t k b h = (a, refl, h, refl)

  bind-ok :
      {A B : Type 0} (m : Action A) (k : A → Action B) (s : Scan) (b : B)
      → ((m >>= k) s).0 ≡ some b
      → (a : A) × ((m s).0 ≡ some a)
        × ((k a (m s).1).0 ≡ some b)
        × (((m >>= k) s).1 ≡ (k a (m s).1).1)
  unfolding ◌>>=◌
  bind-ok m k s b h = after-ok (m s).0 (m s).1 k b h

  call-ok :
      {A : Type 0} (faults : List Bool) (a x : A) (db : Db) (s : Scan)
      → (answered faults (a, db) s).0 ≡ some x
      → (a ≡ x) × ((answered faults (a, db) s).1.db ≡ db)
  call-ok [] a x db s h = (cc, refl)
  call-ok (true ∷ faults) a x db s h = cc
  call-ok (false ∷ faults) a x db s h = (cc, refl)

  add_row-Has :
      (bucket key : Text) (mtime : ℕ) (content : Option Text) (s : Scan)
      → InOrder s.db
      → (add_row pe digests bucket key mtime content s).0 ≡ some tt
      → is_some (get_object bucket key (add_row pe digests bucket key mtime content s).1.db) ≡ true
  add_row-Has bucket key mtime none s o h = cc
  add_row-Has bucket key mtime (some bytes) s o h =
      let row = indexed_row pe digests bucket key bytes mtime in
      let (a, first, _, state) =
        bind-ok (db_call (λ db. (tt, put_object row db))) (λ _. count indexed) s tt h in
      let (_, db) = call-ok s.faults tt a (put_object row s.db) s first in
      let reads : get_object bucket key (put_object row s.db) ≡ some row =
        get_object-put_object bucket key row s.db o.objects
        ∙ rw (text_eq_refl bucket, text_eq_refl key) refl in
      rw (ap (λ t. t.db) state, db, reads) refl

  unless_there-Has :
      (there : Bool) (bucket key : Text) (mtime : ℕ) (content : Option Text) (s : Scan)
      → is_some (get_object bucket key s.db) ≡ there
      → InOrder s.db
      → (unless_there pe digests there bucket key mtime content s).0 ≡ some tt
      → is_some
          (get_object bucket key (unless_there pe digests there bucket key mtime content s).1.db)
        ≡ true
  unless_there-Has true bucket key mtime content s e o h = e
  unless_there-Has false bucket key mtime content s e o h =
      add_row-Has bucket key mtime content s o h

  index_file-Has :
      (bucket rel : Text) (mtime : ℕ) (content : Option Text) (s : Scan)
      → InOrder s.db
      → (index_file pe digests bucket rel mtime content s).0 ≡ some tt
      → is_some (
          get_object bucket
            (key_at pe digests rel)
            (index_file pe digests bucket rel mtime content s).1.db)
        ≡ true
  unfolding index_file
  index_file-Has bucket rel mtime content s o h =
      let key = key_at pe digests rel in
      let (there, looked, rest, state) =
        bind-ok (db_call (λ db. (is_some (get_object bucket key db), db)))
          (λ t. unless_there pe digests t bucket key mtime content) s tt h in
      let (q, db) = call-ok s.faults (is_some (get_object bucket key s.db)) there s.db s looked in
      rw (ap (λ t. t.db) state) (
        unless_there-Has there bucket key mtime content _
          (ap (λ d. is_some (get_object bucket key d)) db ∙ q) (rw db o) rest)

  mutual
    unfolding NodeHas DirectoryHas index_node index_dir Additive

    index_node-Has :
        (bucket rel : Text) (mtime : ℕ) (node : Node) (s : Scan)
        → InOrder s.db
        → (index_node pe digests bucket rel mtime node s).0 ≡ some tt
        → NodeHas bucket rel node (index_node pe digests bucket rel mtime node s).1.db
    index_node-Has bucket rel mtime (file content) s o h =
        index_file-Has bucket rel mtime content s o h
    index_node-Has bucket rel mtime (directory d) s o h = index_dir-Has bucket rel d s o h
    index_node-Has bucket rel mtime symlink s o h = tt
    index_node-Has bucket rel mtime special s o h = tt
    index_node-Has bucket rel mtime unknown s o h = cc

    index_dir-Has :
        (bucket dir : Text) (d : Directory) (s : Scan)
        → InOrder s.db
        → (index_dir pe digests bucket dir d s).0 ≡ some tt
        → DirectoryHas bucket dir d (index_dir pe digests bucket dir d s).1.db
    index_dir-Has bucket dir end s o h = tt
    index_dir-Has bucket dir broken s o h = cc
    index_dir-Has bucket dir (entry name mtime node rest) s o h =
        let m = index_node pe digests bucket (push dir name) mtime node in
        let (_, first, later, state) =
          bind-ok m (λ _. index_dir pe digests bucket dir rest) s tt h in
        let adds = index_node-Additive pe digests bucket (push dir name) mtime node s o in
        let adds' = index_dir-Additive pe digests bucket dir rest (m s).1 adds.order in
        rw (ap (λ t. t.db) state) (
          NodeHas-later bucket (push dir name) node (m s).1.db _ adds'.extends
              (index_node-Has bucket (push dir name) mtime node s o first),
          index_dir-Has bucket dir rest (m s).1 adds.order later,
        )

  created_there :
      (bucket : Text) (mtime : ℕ) (db : Db)
      → InOrder db
      → bucket_exists bucket (create_bucket bucket mtime db).1 ≡ true
  unfolding create_bucket
  created_there bucket mtime db o = elim (Bool-cases (bucket_exists bucket db)) [
    | inl there ↦ rw there there
    | inr missing ↦
        let row : BucketRow = record { name = bucket; created_at = mtime } in
        rw missing (
          unfold bucket_exists in
          rw
            (
              select_row-upsert bucket_key (bucket, []) row db.buckets o.buckets,
              key_eq_refl (bucket, []),
            )
            refl)
  ]

  adopt-Has :
      (there : Bool) (bucket : Text) (mtime : ℕ) (s : Scan)
      → bucket_exists bucket s.db ≡ there
      → InOrder s.db
      → (adopt pe digests there bucket mtime s).0 ≡ some tt
      → bucket_exists bucket (adopt pe digests there bucket mtime s).1.db ≡ true
  adopt-Has true bucket mtime s e o h = e
  adopt-Has false bucket mtime s e o h =
      let (a, first, _, state) =
        bind-ok (db_call (create_bucket bucket mtime)) (λ _. count adopted) s tt h in
      let (_, db) =
        call-ok s.faults (create_bucket bucket mtime s.db).0 a (create_bucket bucket mtime s.db).1 s
          first in
      rw (ap (λ t. t.db) state, db) (created_there bucket mtime s.db o)

  index_bucket-Has :
      (bucket : Text) (mtime : ℕ) (d : Directory) (s : Scan)
      → InOrder s.db
      → (index_bucket pe digests bucket mtime d s).0 ≡ some tt
      → (bucket_exists bucket (index_bucket pe digests bucket mtime d s).1.db ≡ true)
        × DirectoryHas bucket [] d (index_bucket pe digests bucket mtime d s).1.db
  unfolding index_bucket Additive
  index_bucket-Has bucket mtime d s o h =
      let (there, looked, rest, state) =
        bind-ok (db_call (λ db. (bucket_exists bucket db, db))) _ s tt h in
      let (q, db) = call-ok s.faults (bucket_exists bucket s.db) there s.db s looked in
      let u = (db_call (λ db. (bucket_exists bucket db, db)) s).1 in
      let ordered : InOrder u.db = rw db o in
      let (_, adopting, later, state') =
        bind-ok (adopt pe digests there bucket mtime) (λ _. index_dir pe digests bucket [] d) u tt
          rest in
      let adds = adopt-Adds pe digests there bucket mtime u ordered in
      let v = (adopt pe digests there bucket mtime u).1 in
      let adds' = index_dir-Additive pe digests bucket [] d v adds.order in
      rw (ap (λ t. t.db) (state ∙ state')) (
        adds'.extends.buckets bucket
            (adopt-Has there bucket mtime u (ap (bucket_exists bucket) db ∙ q) ordered adopting),
        index_dir-Has bucket [] d v adds.order later,
      )

  visit-Has :
      (name : Text) (mtime : ℕ) (node : Node) (s : Scan)
      → InOrder s.db
      → (visit pe digests name mtime node s).0 ≡ some tt
      → BucketHas name node (visit pe digests name mtime node s).1.db
  visit-Has name mtime (file content) s o h = tt
  visit-Has name mtime (directory d) s o h =
      index_bucket-Has (bucket_of pe digests name) mtime d s o h
  visit-Has name mtime symlink s o h = tt
  visit-Has name mtime special s o h = tt
  visit-Has name mtime unknown s o h = cc

  visit_all-Has :
      (d : Directory) (s : Scan)
      → InOrder s.db
      → (visit_all pe digests d s).0 ≡ some tt
      → AllHave d (visit_all pe digests d s).1.db
  unfolding visit_all Additive
  visit_all-Has end s o h = tt
  visit_all-Has broken s o h = cc
  visit_all-Has (entry name mtime node rest) s o h =
      let m = visit pe digests name mtime node in
      let (_, first, later, state) = bind-ok m (λ _. visit_all pe digests rest) s tt h in
      let adds = visit-Additive pe digests name mtime node s o in
      let adds' = visit_all-Additive pe digests rest (m s).1 adds.order in
      rw (ap (λ t. t.db) state) (
        BucketHas-later name node (m s).1.db _ adds'.extends (visit-Has name mtime node s o first),
        visit_all-Has rest (m s).1 adds.order later,
      )

-- After a scan that ends well every directory below `buckets/` is a bucket, and every regular file in it,
-- at whatever depth, has a row under the key of its path.
pub run-AllHave :
    (pe : PercentEncoding) (digests : Digests) (d : Directory) (faults : List Bool) (db : Db)
    → InOrder db
    → (run pe digests (some d) faults db).0 ≡ some tt
    → AllHave pe digests d (run pe digests (some d) faults db).1.db
unfolding run
run-AllHave pe digests d faults db o h = visit_all-Has pe digests d _ o h
