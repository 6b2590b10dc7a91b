-- ===== src/Reindex/Additive.antt =====
-- The scan only adds: what has a row keeps it, however the scan ends.
use cubby.Base.{ℕ, ◌≡◌, refl, Bool, true, false, Option, none, some, List, [], Text, is_some}
use cubby.Keypath.{PercentEncoding, push}
use cubby.Multipart.{Digests}
use cubby.Db.{Db, bucket_exists, create_bucket, put_object, get_object}
use cubby.Reindex.{
  Node, file, directory, symlink, special, unknown, Directory, end, broken, entry, Scan, return,
  fail, db_call, count, skipped, present, indexed, adopted, bucket_present, key_at, indexed_row,
  add_row, unless_there, index_file, index_node, index_dir, bucket_of, adopt, index_bucket, visit,
  visit_all, run,
}
use cubby.Reindex.Adds.{
  Extends, InOrder, Extends-refl, Adds, Additive, keeps, bind-Adds, bind-Additive, read-Additive,
  count-Additive, write-Adds, put_object-Extends, put_object-InOrder, create_bucket-Extends,
  create_bucket-InOrder, not_there,
}

module _ (pe : PercentEncoding) (digests : Digests) where
  add_row-Adds :
      (bucket key : Text) (mtime : ℕ) (content : Option Text) (s : Scan)
      → InOrder s.db
      → get_object bucket key s.db ≡ none
      → Adds (add_row pe digests bucket key mtime content) s
  add_row-Adds bucket key mtime none s o missing = keeps fail s o refl
  add_row-Adds bucket key mtime (some bytes) s o missing =
      let row = indexed_row pe digests bucket key bytes mtime in
      let first =
        write-Adds (λ db. (tt, put_object row db)) s o (put_object-InOrder row s.db o)
          (put_object-Extends row s.db o missing) in
      bind-Adds (db_call (λ db. (tt, put_object row db))) (λ _. count indexed) s first
        (λ a e. unfold Additive in count-Additive indexed _ first.order)

  unless_there-Adds :
      (there : Bool) (bucket key : Text) (mtime : ℕ) (content : Option Text) (s : Scan)
      → is_some (get_object bucket key s.db) ≡ there
      → InOrder s.db
      → Adds (unless_there pe digests there bucket key mtime content) s
  unless_there-Adds true bucket key mtime content s h o = keeps (count present) s o refl
  unless_there-Adds false bucket key mtime content s h o =
      add_row-Adds bucket key mtime content s o (not_there _ h)

  index_file-Additive :
      (bucket rel : Text) (mtime : ℕ) (content : Option Text)
      → Additive (index_file pe digests bucket rel mtime content)
  unfolding index_file
  index_file-Additive bucket rel mtime content =
      read-Additive (λ db. is_some (get_object bucket (key_at pe digests rel) db)) _
        (λ there s h o. unless_there-Adds there bucket (key_at pe digests rel) mtime content s h o)

  fail-Additive : Additive (fail {A = Unit})
  unfolding Additive
  fail-Additive s o = keeps fail s o refl

  return-Additive : {A : Type 0} (a : A) → Additive (return a)
  unfolding Additive
  return-Additive a s o = keeps (return a) s o refl

  mutual
    unfolding index_node index_dir

    pub index_node-Additive :
        (bucket rel : Text) (mtime : ℕ) (node : Node)
        → Additive (index_node pe digests bucket rel mtime node)
    index_node-Additive bucket rel mtime (file content) =
        index_file-Additive bucket rel mtime content
    index_node-Additive bucket rel mtime (directory d) = index_dir-Additive bucket rel d
    index_node-Additive bucket rel mtime symlink = count-Additive skipped
    index_node-Additive bucket rel mtime special = count-Additive skipped
    index_node-Additive bucket rel mtime unknown = fail-Additive

    pub index_dir-Additive :
        (bucket dir : Text) (d : Directory) → Additive (index_dir pe digests bucket dir d)
    index_dir-Additive bucket dir end = return-Additive tt
    index_dir-Additive bucket dir broken = fail-Additive
    index_dir-Additive bucket dir (entry name mtime node rest) =
        bind-Additive _ _ (index_node-Additive bucket (push dir name) mtime node)
          (λ _. index_dir-Additive bucket dir rest)

  pub adopt-Adds :
      (there : Bool) (bucket : Text) (mtime : ℕ) (s : Scan)
      → InOrder s.db
      → Adds (adopt pe digests there bucket mtime) s
  adopt-Adds true bucket mtime s o = keeps (count bucket_present) s o refl
  adopt-Adds false bucket mtime s o =
      let first =
        write-Adds (create_bucket bucket mtime) s o (create_bucket-InOrder bucket mtime s.db o)
          (create_bucket-Extends bucket mtime s.db o) in
      bind-Adds (db_call (create_bucket bucket mtime)) (λ _. count adopted) s first
        (λ a e. unfold Additive in count-Additive adopted _ first.order)

  index_bucket-Additive :
      (bucket : Text) (mtime : ℕ) (d : Directory)
      → Additive (index_bucket pe digests bucket mtime d)
  unfolding index_bucket Additive
  index_bucket-Additive bucket mtime d = read-Additive (bucket_exists bucket) _ (λ there s h o.
      let first = adopt-Adds there bucket mtime s o in
      bind-Adds (adopt pe digests there bucket mtime) _ s first
        (λ a e. index_dir-Additive bucket [] d _ first.order))

  pub visit-Additive :
      (name : Text) (mtime : ℕ) (node : Node) → Additive (visit pe digests name mtime node)
  visit-Additive name mtime (file content) = count-Additive skipped
  visit-Additive name mtime (directory d) =
      index_bucket-Additive (bucket_of pe digests name) mtime d
  visit-Additive name mtime symlink = count-Additive skipped
  visit-Additive name mtime special = count-Additive skipped
  visit-Additive name mtime unknown = fail-Additive

  pub visit_all-Additive : (d : Directory) → Additive (visit_all pe digests d)
  unfolding visit_all
  visit_all-Additive end = return-Additive tt
  visit_all-Additive broken = fail-Additive
  visit_all-Additive (entry name mtime node rest) =
      bind-Additive _ _ (visit-Additive name mtime node) (λ _. visit_all-Additive rest)

-- A scan of whatever tree never changes or removes a row, however it ends: every object has the row
-- that it had, every bucket is still there, and the tables stay in order.
pub run-Extends :
    (pe : PercentEncoding) (digests : Digests) (found : Option Directory) (faults : List Bool)
    (db : Db)
    → InOrder db
    → Extends db (run pe digests found faults db).1.db
      × InOrder (run pe digests found faults db).1.db
unfolding run Additive
run-Extends pe digests none faults db o = (Extends-refl db, o)
run-Extends pe digests (some d) faults db o =
    let adds = visit_all-Additive pe digests d _ o in (adds.extends, adds.order)
