-- ===== src/Store/Atomic.antt =====
-- Steps that change neither the metadata nor what was fired, and actions whose errors do not.
use cubby.Base.{
  ◌≡◌, ◌≢◌, refl, ◌∙◌, inl, inr, Bool, true, false, Option, none, some, List, [], ◌∷◌, ◌++◌, Text,
  codes, unwrap_or, Bool-cases,
}
use cubby.Notify.{ObjectEvent}
use cubby.Db.{Db}
use cubby.Store.{
  S3Error, internal_error, S3Result, ok, err, panicked, Setup, World, Action, after, ◌>>=◌, return,
  fail, answered, db_call, db_read, io, cleaned, or_clean, object_path, fire, now, next_tmp,
  write_chunks, stream_to_temp, make_parent, ensure,
}

module _ (setup : Setup) where
  open setup use {fs, pe, digests}

  -- An action that changes neither the metadata nor what was fired.
  pub record Same (w v : World setup) : Type 0 where
    pub db : v.db ≡ w.db
    pub fired : v.fired ≡ w.fired

  unfoldable pub Keeps : {A : Type 0} → Action setup A → Type 0
  Keeps m = (w : World setup) → Same w (m w).1

  pub Same-trans : (u v w : World setup) → Same u v → Same v w → Same u w
  Same-trans u v w s t = record { db = t.db ∙ s.db; fired = t.fired ∙ s.fired }

  after-Keeps :
      {A B : Type 0} (r : S3Result A) (w : World setup) (k : A → Action setup B)
      → ((a : A) → Keeps (k a))
      → Same w (after setup r w k).1
  unfolding Keeps
  after-Keeps (ok a) w k h = h a w
  after-Keeps (err e) w k h = record { db = refl; fired = refl }
  after-Keeps panicked w k h = record { db = refl; fired = refl }

  pub bind-Keeps :
      {A B : Type 0} (m : Action setup A) (k : A → Action setup B)
      → Keeps m
      → ((a : A) → Keeps (k a))
      → Keeps (◌>>=◌ setup m k)
  unfolding Keeps ◌>>=◌
  bind-Keeps m k h g w =
      Same-trans w (m w).1 (◌>>=◌ setup m k w).1 (h w) (after-Keeps (m w).0 (m w).1 k g)

  pub return-Keeps : {A : Type 0} (a : A) → Keeps (return setup a)
  unfolding Keeps
  return-Keeps a w = record { db = refl; fired = refl }

  pub fail-Keeps : (A : Type 0) (e : S3Error) → Keeps (fail setup {A = A} e)
  unfolding Keeps
  fail-Keeps A e w = record { db = refl; fired = refl }

  pub io-Keeps : (f : fs.Disk → Bool × fs.Disk) → Keeps (io setup f)
  unfolding Keeps
  io-Keeps f w = elim (Bool-cases (f w.disk).0) [
    | inl e ↦ rw e record { db = refl; fired = refl }
    | inr e ↦ rw e record { db = refl; fired = refl }
  ]

  cleaned-Keeps :
      {A : Type 0} (temp : Text) (r : S3Result A) (w : World setup)
      → Same w (cleaned setup temp r w).1
  cleaned-Keeps temp (ok a) w = record { db = refl; fired = refl }
  cleaned-Keeps temp (err e) w = record { db = refl; fired = refl }
  cleaned-Keeps temp panicked w = record { db = refl; fired = refl }

  pub or_clean-Keeps :
      {A : Type 0} (temp : Text) (m : Action setup A) → Keeps m → Keeps (or_clean setup temp m)
  unfolding Keeps
  or_clean-Keeps temp m h w =
      Same-trans w (m w).1 (or_clean setup temp m w).1 (h w) (cleaned-Keeps temp (m w).0 (m w).1)

  pub write_chunks-Keeps :
      (temp seen : Text) (chunks : List (Option Text)) → Keeps (write_chunks setup temp seen chunks)
  unfolding write_chunks
  write_chunks-Keeps temp seen [] = return-Keeps seen
  write_chunks-Keeps temp seen (none ∷ chunks) = fail-Keeps Text internal_error
  write_chunks-Keeps temp seen (some bytes ∷ chunks) =
      bind-Keeps (io setup (fs.write_all temp bytes))
        (λ _. write_chunks setup temp (seen ++ bytes) chunks) (io-Keeps (fs.write_all temp bytes))
        (λ _. write_chunks-Keeps temp (seen ++ bytes) chunks)

  pub next_tmp-Keeps : (ext : Text) → Keeps (next_tmp setup ext)
  unfolding Keeps
  next_tmp-Keeps ext w = record { db = refl; fired = refl }

  pub stream_to_temp-Keeps :
      (body : Option (List (Option Text))) → Keeps (stream_to_temp setup body)
  unfolding stream_to_temp
  stream_to_temp-Keeps body =
      bind-Keeps (next_tmp setup (codes "tmp")) _ (next_tmp-Keeps (codes "tmp")) (λ temp.
        bind-Keeps (io setup (fs.create temp)) _ (io-Keeps (fs.create temp)) (λ _.
          or_clean-Keeps temp _ (
            bind-Keeps (write_chunks setup temp [] (unwrap_or body [])) _
              (write_chunks-Keeps temp [] (unwrap_or body []))
              (λ seen.
                bind-Keeps (io setup (fs.sync_all temp)) _ (io-Keeps (fs.sync_all temp))
                  (λ _. return-Keeps {A = Text × Text} (temp, seen))))))

  pub make_parent-Keeps : (temp : Text) (dir : Option Text) → Keeps (make_parent setup temp dir)
  make_parent-Keeps temp none = return-Keeps tt
  make_parent-Keeps temp (some dir) = or_clean-Keeps temp _ (io-Keeps (fs.create_dir_all dir))

  -- An action whose errors leave the metadata and what was fired as they were.
  unfoldable pub Atomic : {A : Type 0} → Action setup A → Type 0
  Atomic m = (w : World setup) (e : S3Error) → (m w).0 ≡ err e → Same w (m w).1

  after-Atomic :
      {A B : Type 0} (r : S3Result A) (w : World setup) (k : A → Action setup B)
      → ((a : A) → Atomic (k a))
      → (e : S3Error) → (after setup r w k).0 ≡ err e
      → Same w (after setup r w k).1
  unfolding Atomic
  after-Atomic (ok a) w k g e q = g a w e q
  after-Atomic (err x) w k g e q = record { db = refl; fired = refl }
  after-Atomic panicked w k g e q = record { db = refl; fired = refl }

  pub bind-Atomic :
      {A B : Type 0} (m : Action setup A) (k : A → Action setup B)
      → Keeps m
      → ((a : A) → Atomic (k a))
      → Atomic (◌>>=◌ setup m k)
  unfolding Keeps Atomic ◌>>=◌
  bind-Atomic m k h g w e q =
      Same-trans w (m w).1 (◌>>=◌ setup m k w).1 (h w) (after-Atomic (m w).0 (m w).1 k g e q)

  last_answer :
      {A B : Type 0} (faults : List Bool) (r : A × Db) (w : World setup) (k : A → Action setup B)
      → ((a : A) (w : World setup) (e : S3Error) → (k a w).0 ≢ err e)
      → (e : S3Error)
      → (after setup (answered setup faults r w).0 (answered setup faults r w).1 k).0 ≡ err e
      → Same w (after setup (answered setup faults r w).0 (answered setup faults r w).1 k).1
  last_answer [] (a, db) w k h e q = absurd (h a _ e q)
  last_answer (true ∷ faults) (a, db) w k h e q = record { db = refl; fired = refl }
  last_answer (false ∷ faults) (a, db) w k h e q = absurd (h a _ e q)

  pub last_write-Atomic :
      {A B : Type 0} (f : Db → A × Db) (k : A → Action setup B)
      → ((a : A) (w : World setup) (e : S3Error) → (k a w).0 ≢ err e)
      → Atomic (◌>>=◌ setup (db_call setup f) k)
  unfolding Atomic ◌>>=◌
  last_write-Atomic f k h w e q = last_answer w.db_faults (f w.db) w k h e q

  pub object_path-Keeps : (bucket key : Text) → Keeps (object_path setup bucket key)
  unfolding Keeps
  object_path-Keeps bucket key w = record { db = refl; fired = refl }

  pub now-Keeps : Keeps (now setup)
  unfolding Keeps
  now-Keeps w = record { db = refl; fired = refl }

  read_answer :
      {A : Type 0} (faults : List Bool) (a : A) (w : World setup)
      → Same w (answered setup faults (a, w.db) w).1
  read_answer [] a w = record { db = refl; fired = refl }
  read_answer (true ∷ faults) a w = record { db = refl; fired = refl }
  read_answer (false ∷ faults) a w = record { db = refl; fired = refl }

  pub db_read-Keeps : {A : Type 0} (f : Db → A) → Keeps (db_read setup f)
  unfolding Keeps
  db_read-Keeps f w = read_answer w.db_faults (f w.db) w

  pub ensure-Keeps : (e : S3Error) (b : Bool) → Keeps (ensure setup e b)
  unfolding Keeps
  ensure-Keeps e true w = record { db = refl; fired = refl }
  ensure-Keeps e false w = record { db = refl; fired = refl }

  -- Once the row is written there is nothing left to fail.
  pub fire-ok :
      {A : Type 0} (event : ObjectEvent) (a : A) (w : World setup) (e : S3Error)
      → (◌>>=◌ setup (fire setup event) (λ _. return setup a) w).0 ≢ err e
  unfolding ◌>>=◌
  fire-ok event a w e q = cc

  after_ok :
      {A B : Type 0} (w : World setup) (r : S3Result A) (v : World setup) (k : A → Action setup B)
      → ((a : A) (u : World setup) (e : S3Error) → (k a u).0 ≢ err e)
      → (e : S3Error) → (after setup r v k).0 ≡ err e
      → ((x : S3Error) → r ≡ err x → Same w v)
      → Same w (after setup r v k).1
  after_ok w (ok a) v k g e q h = absurd (g a v e q)
  after_ok w (err x) v k g e q h = h x refl
  after_ok w panicked v k g e q h = cc

  pub then_ok-Atomic :
      {A B : Type 0} (m : Action setup A) (k : A → Action setup B)
      → Atomic m
      → ((a : A) (w : World setup) (e : S3Error) → (k a w).0 ≢ err e)
      → Atomic (◌>>=◌ setup m k)
  unfolding Atomic ◌>>=◌
  then_ok-Atomic m k h g w e q = after_ok w (m w).0 (m w).1 k g e q (λ x. h w x)
