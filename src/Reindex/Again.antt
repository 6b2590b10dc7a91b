-- ===== src/Reindex/Again.antt =====
-- A second scan of a tree that is still the same changes nothing.
use cubby.Base.{ℕ, ◌≡◌, refl, sym, ◌∙◌, Bool, true, Option, none, some, List, [], Text, is_some}
use cubby.Keypath.{PercentEncoding, push}
use cubby.Multipart.{Digests}
use cubby.Db.{Db, bucket_exists, get_object}
use cubby.Reindex.{
  Node, file, directory, symlink, special, unknown, Directory, end, broken, entry, Scan, Action,
  after, ◌>>=◌, db_call, key_at, index_file, index_node, index_dir, bucket_of, adopt, index_bucket,
  visit, visit_all, run,
}
use cubby.Reindex.Adds.{InOrder, read_state, read_answer}
use cubby.Reindex.Complete.{NodeHas, DirectoryHas, AllHave, run-AllHave}

after-db :
    {A B : Type 0} (r : Option A) (s t : Scan) (k : A → Action B)
    → t.db ≡ s.db
    → ((a : A) → r ≡ some a → (k a t).1.db ≡ t.db)
    → (after r t k).1.db ≡ s.db
after-db none s t k e h = e
after-db (some a) s t k e h = h a refl ∙ e

bind-db :
    {A B : Type 0} (m : Action A) (k : A → Action B) (s : Scan)
    → (m s).1.db ≡ s.db
    → ((a : A) → (m s).0 ≡ some a → (k a (m s).1).1.db ≡ (m s).1.db)
    → ((m >>= k) s).1.db ≡ s.db
unfolding ◌>>=◌
bind-db m k s e h = after-db (m s).0 s (m s).1 k e h

-- What follows a test that holds.
read-db :
    {B : Type 0} (f : Db → Bool) (k : Bool → Action B) (s : Scan)
    → f s.db ≡ true
    → ((t : Scan) → t.db ≡ s.db → (k true t).1.db ≡ t.db)
    → ((db_call (λ db. (f db, db)) >>= k) s).1.db ≡ s.db
read-db f k s holds h =
    let read = db_call (λ db. (f db, db)) in
    let same = read_state s.faults (f s.db) s in
    bind-db read k s same λ a e.
      let answer : a ≡ true = sym (read_answer s.faults (f s.db) a s e) ∙ holds in
      rw answer (h (read s).1 same)

module _ (pe : PercentEncoding) (digests : Digests) where
  index_file-db :
      (bucket rel : Text) (mtime : ℕ) (content : Option Text) (s : Scan)
      → is_some (get_object bucket (key_at pe digests rel) s.db) ≡ true
      → (index_file pe digests bucket rel mtime content s).1.db ≡ s.db
  unfolding index_file
  index_file-db bucket rel mtime content s h =
      read-db (λ db. is_some (get_object bucket (key_at pe digests rel) db)) _ s h (λ t e. refl)

  mutual
    unfolding index_node index_dir NodeHas DirectoryHas

    index_node-db :
        (bucket rel : Text) (mtime : ℕ) (node : Node) (s : Scan)
        → NodeHas pe digests bucket rel node s.db
        → (index_node pe digests bucket rel mtime node s).1.db ≡ s.db
    index_node-db bucket rel mtime (file content) s h = index_file-db bucket rel mtime content s h
    index_node-db bucket rel mtime (directory d) s h = index_dir-db bucket rel d s h
    index_node-db bucket rel mtime symlink s h = refl
    index_node-db bucket rel mtime special s h = refl
    index_node-db bucket rel mtime unknown s h = refl

    index_dir-db :
        (bucket dir : Text) (d : Directory) (s : Scan)
        → DirectoryHas pe digests bucket dir d s.db
        → (index_dir pe digests bucket dir d s).1.db ≡ s.db
    index_dir-db bucket dir end s h = refl
    index_dir-db bucket dir broken s h = refl
    index_dir-db bucket dir (entry name mtime node rest) s (here, later) =
        let m = index_node pe digests bucket (push dir name) mtime node in
        let same = index_node-db bucket (push dir name) mtime node s here in
        bind-db m _ s same (λ a e. index_dir-db bucket dir rest (m s).1 (rw same later))

  index_bucket-db :
      (bucket : Text) (mtime : ℕ) (d : Directory) (s : Scan)
      → bucket_exists bucket s.db ≡ true
      → DirectoryHas pe digests bucket [] d s.db
      → (index_bucket pe digests bucket mtime d s).1.db ≡ s.db
  unfolding index_bucket
  index_bucket-db bucket mtime d s there h = read-db (bucket_exists bucket) _ s there λ t e.
      let m = adopt pe digests true bucket mtime in
      bind-db m _ t refl (λ a q. index_dir-db bucket [] d (m t).1 (rw e h))

  visit-db :
      (name : Text) (mtime : ℕ) (node : Node) (rest : Directory) (s : Scan)
      → AllHave pe digests (entry name mtime node rest) s.db
      → (visit pe digests name mtime node s).1.db ≡ s.db
  visit-db name mtime (file content) rest s h = refl
  visit-db name mtime (directory d) rest s ((there, h), later) =
      index_bucket-db (bucket_of pe digests name) mtime d s there h
  visit-db name mtime symlink rest s h = refl
  visit-db name mtime special rest s h = refl
  visit-db name mtime unknown rest s h = refl

  visit_all-db :
      (d : Directory) (s : Scan)
      → AllHave pe digests d s.db
      → (visit_all pe digests d s).1.db ≡ s.db
  unfolding visit_all
  visit_all-db end s h = refl
  visit_all-db broken s h = refl
  visit_all-db (entry name mtime node rest) s (here, later) =
      let m = visit pe digests name mtime node in
      let same = visit-db name mtime node rest s (here, later) in
      bind-db m _ s same (λ a e. visit_all-db rest (m s).1 (rw same later))

  run-db :
      (d : Directory) (faults : List Bool) (db : Db)
      → AllHave pe digests d db
      → (run pe digests (some d) faults db).1.db ≡ db
  unfolding run
  run-db d faults db h = visit_all-db d _ h

-- After a scan that ended well, another scan of the same tree changes nothing in the tables, wherever it
-- fails.
pub run_again :
    (pe : PercentEncoding) (digests : Digests) (d : Directory) (faults later_faults : List Bool)
    (db : Db)
    → InOrder db
    → (run pe digests (some d) faults db).0 ≡ some tt
    → let scanned = (run pe digests (some d) faults db).1.db in
      (run pe digests (some d) later_faults scanned).1.db ≡ scanned
run_again pe digests d faults later_faults db o h =
    run-db pe digests d later_faults _ (run-AllHave pe digests d faults db o h)
