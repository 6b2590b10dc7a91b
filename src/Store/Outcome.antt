-- ===== src/Store/Outcome.antt =====
-- What the steps of a handler that ended well did, step by step.
use cubby.Base.{
  ℕ, ◌≡◌, refl, sym, ap, ◌∙◌, Bool, true, false, Option, none, some, List, [], ◌∷◌, ◌++◌, Text,
  length,
}
use cubby.Utf8.{as_bytes}
use cubby.Keypath.{key_to_relpath}
use cubby.Notify.{ObjectEvent}
use cubby.Db.{Db, ObjectRow}
use cubby.Store.{
  S3Error, ok, Setup, World, Action, ◌>>=◌, return, answered, db_call, db_read, io, path_of,
  object_path, fire, now, next_tmp, make_parent, ensure, missing_as, or_missing, open_file, opened,
  unless_failed,
}
use cubby.Store.Files.{copy_into, synced, with_temp, rename_into}
use cubby.Store.RoundTrip.{Ends, bind-ok, io-ok, or_clean-ok}

module _ (setup : Setup) where
  open setup use {fs, pe}

  module _ {A B : Type 0} {m : Action setup A} {k : A → Action setup B} {w v : World setup}
      {b : B} where
    pub bind_inv :
        Ends setup (◌>>=◌ setup m k) w b v
        → (a : A) × (u : World setup) × Ends setup m w a u × Ends setup (k a) u b v
    bind_inv e = let (a, first, rest) = bind-ok setup m k w b v e in (a, (m w).1, first, rest)

  -- The metadata and what was fired stay; of the files only one can change.
  pub record Only (temp : Text) (w v : World setup) : Type 0 where
    pub db : v.db ≡ w.db
    pub fired : v.fired ≡ w.fired
    pub files : (q : Text) → fs.Apart temp q → fs.read q v.disk ≡ fs.read q w.disk

  pub Only-trans :
      {temp : Text} {u v w : World setup} → Only temp u v → Only temp v w → Only temp u w
  Only-trans s t = record {
    db = t.db ∙ s.db;
    fired = t.fired ∙ s.fired;
    files = λ q h. t.files q h ∙ s.files q h;
  }

  -- A step that changes none of these.
  pub record Calm (w v : World setup) : Type 0 where
    pub db : v.db ≡ w.db
    pub fired : v.fired ≡ w.fired
    pub disk : v.disk ≡ w.disk
    pub tmp : v.tmp_counter ≡ w.tmp_counter

  pub Calm-trans : {u v w : World setup} → Calm u v → Calm v w → Calm u w
  Calm-trans s t = record {
    db = t.db ∙ s.db;
    fired = t.fired ∙ s.fired;
    disk = t.disk ∙ s.disk;
    tmp = t.tmp ∙ s.tmp;
  }

  pub Calm-refl : {w v : World setup} → w ≡ v → Calm w v
  Calm-refl s = rw (← s) record { db = refl; fired = refl; disk = refl; tmp = refl }

  read_answer :
      {A : Type 0} (faults : List Bool) (x a : A) (w v : World setup)
      → (answered setup faults (x, w.db) w).0 ≡ ok a
      → (answered setup faults (x, w.db) w).1 ≡ v
      → (x ≡ a) × Calm w v
  read_answer [] x a w v q s =
      (cc, rw (← s) record { db = refl; fired = refl; disk = refl; tmp = refl })
  read_answer (true ∷ faults) x a w v q s = cc
  read_answer (false ∷ faults) x a w v q s =
      (cc, rw (← s) record { db = refl; fired = refl; disk = refl; tmp = refl })

  pub db_read-ok :
      {A : Type 0} (f : Db → A) {w v : World setup} {a : A}
      → Ends setup (db_read setup f) w a v
      → (f w.db ≡ a) × Calm w v
  db_read-ok f {w} {v} {a} e = read_answer w.db_faults (f w.db) a w v e.result e.state

  write_answer :
      {A : Type 0} (faults : List Bool) (x a : A) (db : Db) (w v : World setup)
      → (answered setup faults (x, db) w).0 ≡ ok a
      → (answered setup faults (x, db) w).1 ≡ v
      → (x ≡ a) × (v.db ≡ db) × (v.fired ≡ w.fired) × (v.disk ≡ w.disk)
  write_answer [] x a db w v q s = (cc, rw (← s) refl, rw (← s) refl, rw (← s) refl)
  write_answer (true ∷ faults) x a db w v q s = cc
  write_answer (false ∷ faults) x a db w v q s = (cc, rw (← s) refl, rw (← s) refl, rw (← s) refl)

  pub db_call-ok :
      {A : Type 0} (f : Db → A × Db) {w v : World setup} {a : A}
      → Ends setup (db_call setup f) w a v
      → ((f w.db).0 ≡ a) × (v.db ≡ (f w.db).1) × (v.fired ≡ w.fired) × (v.disk ≡ w.disk)
  db_call-ok f {w} {v} {a} e = write_answer w.db_faults (f w.db).0 a (f w.db).1 w v e.result e.state

  pub ensure-ok :
      (x : S3Error) (b : Bool) {w v : World setup} {u : Unit}
      → Ends setup (ensure setup x b) w u v
      → (b ≡ true) × (w ≡ v)
  ensure-ok x true e = (refl, e.state)
  ensure-ok x false e = absurd (cc e.result)

  pub return-ok :
      {A : Type 0} {a b : A} {w v : World setup}
      → Ends setup (return setup a) w b v
      → (a ≡ b) × (w ≡ v)
  return-ok {A} {a} {b} e = let same : a ≡ b = cc e.result in (same, e.state)

  pub object_path-ok :
      (bucket key : Text) {path : Text} {w v : World setup}
      → Ends setup (object_path setup bucket key) w path v
      → (path_of setup setup.root (as_bytes bucket) (key_to_relpath pe (as_bytes key)) ≡ ok path)
        × (w ≡ v)
  object_path-ok bucket key e = (e.result, e.state)

  pub now-ok : {n : ℕ} {w v : World setup} → Ends setup (now setup) w n v → Calm w v
  now-ok e = rw (← e.state) record { db = refl; fired = refl; disk = refl; tmp = refl }

  pub fire-ok :
      (event : ObjectEvent) {u : Unit} {w v : World setup}
      → Ends setup (fire setup event) w u v
      → (v.db ≡ w.db) × (v.disk ≡ w.disk) × (v.fired ≡ w.fired ++ event ∷ [])
  fire-ok event e = (rw (← e.state) refl, rw (← e.state) refl, rw (← e.state) refl)

  opened-ok :
      (found : Option Text) {bytes : Text} {w v : World setup}
      → (opened setup found w).0 ≡ ok bytes
      → (opened setup found w).1 ≡ v
      → (found ≡ some bytes) × (w ≡ v)
  opened-ok none q s = absurd (cc)
  opened-ok (some x) {bytes} q s = let same : x ≡ bytes = cc in (ap some same, s)

  pub open_file-ok :
      (path : Text) {bytes : Text} {w v : World setup}
      → Ends setup (open_file setup path) w bytes v
      → (fs.read path w.disk ≡ some bytes) × (w ≡ v)
  open_file-ok path {bytes} {w} e = opened-ok (fs.read path w.disk) e.result e.state

  pub io-inv :
      (f : fs.Disk → Bool × fs.Disk) {w v : World setup} {u : Unit}
      → Ends setup (io setup f) w u v
      → ((f w.disk).0 ≡ true) × (v.disk ≡ (f w.disk).1) × (v.db ≡ w.db) × (v.fired ≡ w.fired)
  io-inv f {w} {v} {u} e =
      let (q, disk, kept) = io-ok setup f w v u e in
      (q, disk, kept.db, io-fired (f w.disk).0 e.state)
    where
      io-fired :
          (b : Bool)
          → (unless_failed setup b record w { disk = (f w.disk).1 }).1 ≡ v
          → v.fired ≡ w.fired
      io-fired true s = rw (← s) refl
      io-fired false s = rw (← s) refl

  -- A step on one file, the temporary one, from what it does to the other files.
  one_file :
      (temp : Text) (f : fs.Disk → Bool × fs.Disk) {w v : World setup} {u : Unit}
      → ((q : Text) → fs.Apart temp q → fs.read q (f w.disk).1 ≡ fs.read q w.disk)
      → Ends setup (io setup f) w u v
      → Only temp w v
  one_file temp f {w} {v} other e =
      let (_, disk, db, fired) = io-inv f e in
      record { db = db; fired = fired; files = λ q h. rw disk (other q h) }

  pub copy_into-ok :
      (temp src old : Text) {n : ℕ} {w v : World setup}
      → fs.read temp w.disk ≡ some old
      → Ends setup (copy_into setup temp src) w n v
      → (bytes : Text) × (fs.read src w.disk ≡ some bytes)
        × (n ≡ length bytes)
        × (fs.read temp v.disk ≡ some (old ++ bytes))
        × Only temp w v
  unfolding copy_into
  copy_into-ok temp src old {n} {w} {v} h e =
      let (bytes, u, opening, e₁) = bind_inv e in
      let (reads, s) = open_file-ok src opening in
      let (_, x, writing, e₂) = bind_inv e₁ in
      let (q, t) = return-ok e₂ in
      let (wrote, disk, _, _) = io-inv (fs.write_all temp bytes) writing in
      let here : fs.read temp u.disk ≡ some old = rw (← s) h in
      (
        bytes,
        reads,
        sym q,
        rw (← t, disk) (fs.read-write_all temp bytes old u.disk here wrote),
        rw (← t, s)
            (one_file temp (fs.write_all temp bytes)
              (λ p apart. fs.write_all_apart temp p bytes u.disk apart) writing),
      )

  pub synced-ok :
      {A : Type 0} (temp : Text) (a : A) {b : A} {w v : World setup}
      → Ends setup (synced setup temp a) w b v
      → (a ≡ b) × (fs.read temp v.disk ≡ fs.read temp w.disk) × Only temp w v
  unfolding synced
  synced-ok temp a {b} {w} {v} e =
      let (_, u, syncing, e₁) = bind_inv e in
      let (q, t) = return-ok e₁ in
      let (_, disk, _, _) = io-inv (fs.sync_all temp) syncing in
      (
        q,
        rw (← t, disk) (fs.read-sync_all temp temp w.disk),
        rw (← t)
            (one_file temp (fs.sync_all temp) (λ p apart. fs.read-sync_all temp p w.disk) syncing),
      )

  -- The temporary file is new and empty when it is filled.
  pub with_temp-ok :
      {A : Type 0} (ext : Text) (fill : Text → Action setup A) {a : A} {w v : World setup}
      → Ends setup (with_temp setup ext fill) w a v
      → (u : World setup) × (fs.read (setup.tmp_path w.tmp_counter ext) u.disk ≡ some [])
        × Only (setup.tmp_path w.tmp_counter ext) w u
        × Ends setup (fill (setup.tmp_path w.tmp_counter ext)) u a v
  unfolding with_temp
  with_temp-ok ext fill {a} {w} {v} e =
      let temp = setup.tmp_path w.tmp_counter ext in
      let (p, x, taking, e₁) = bind_inv e in
      let named : temp ≡ p = cc taking.result in
      let s : (next_tmp setup ext w).1 ≡ x = taking.state in
      let (_, u, making, e₂) = bind_inv (rw (← named, ← s) at e₁) in
      let (made, disk, _, _) = io-inv (fs.create temp) making in
      (
        u,
        rw disk (fs.read-create temp w.disk made),
        let only =
              one_file temp (fs.create temp) (λ q apart. fs.create_apart temp q w.disk apart)
                making in
            record { db = only.db; fired = only.fired; files = only.files },
        or_clean-ok setup temp (fill temp) u a v e₂,
      )

  make_parent-ok :
      (temp q : Text) (dir : Option Text) {u : Unit} {w v : World setup}
      → Ends setup (make_parent setup temp dir) w u v
      → (v.db ≡ w.db) × (v.fired ≡ w.fired) × (fs.read q v.disk ≡ fs.read q w.disk)
  make_parent-ok temp q none e = rw (← e.state) (refl, refl, refl)
  make_parent-ok temp q (some dir) {u} {w} {v} e =
      let (_, disk, db, fired) =
        io-inv (fs.create_dir_all dir) (or_clean-ok setup temp _ w u v e) in
      (db, fired, rw disk (fs.read-create_dir_all dir q w.disk))

  pub rename_into-ok :
      (temp final : Text) {u : Unit} {w v : World setup}
      → Ends setup (rename_into setup temp final) w u v
      → (fs.read final v.disk ≡ fs.read temp w.disk) × (v.db ≡ w.db) × (v.fired ≡ w.fired)
  unfolding rename_into
  rename_into-ok temp final {u} {w} {v} e =
      let (_, x, making, e₁) = bind_inv e in
      let (db, fired, same) = make_parent-ok temp temp (fs.parent final) making in
      let (moved, disk, db', fired') =
        io-inv (fs.rename temp final) (or_clean-ok setup temp _ x u v e₁) in
      (rw disk (fs.read-rename temp final x.disk moved) ∙ same, db' ∙ db, fired' ∙ fired)

  missing_as-fails :
      {A : Type 0} (b : Bool) {a : A} {w v : World setup}
      → Ends setup (missing_as setup b) w a v
      → ⊥
  missing_as-fails true e = cc e.result
  missing_as-fails false e = cc e.result

  pub or_missing-ok :
      (bucket : Text) (found : Option ObjectRow) {row : ObjectRow} {w v : World setup}
      → Ends setup (or_missing setup bucket found) w row v
      → (found ≡ some row) × (w ≡ v)
  or_missing-ok bucket none e =
      let (b, _, _, failing) = bind_inv e in absurd (missing_as-fails b failing)
  or_missing-ok bucket (some x) {row} e = let (q, s) = return-ok e in (ap some q, s)
