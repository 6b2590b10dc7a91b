-- ===== src/Store/Requests/Preserves.antt =====
-- Actions that keep the tables well formed, however they end, and how they are put together.
use cubby.Base.{◌≡◌, refl, Bool, true, false, Option, none, some, List, [], ◌∷◌, Text}
use cubby.Notify.{ObjectEvent}
use cubby.Db.{Db, DeleteBucketOutcome, missing, not_empty, deleted, bucket_exists}
use cubby.Db.Preserve.{IsWellFormed}
use cubby.Db.Integrity.{Command, execute, or_same, execute-IsWellFormed}
use cubby.Store.{
  S3Result, ok, err, panicked, Removal, gone, not_found, other_kind, Setup, World, Action, ◌>>=◌,
  return, after, answered, db_call, db_read, fire, ensure, remove, ignore_not_found, fire_if,
  outcome_of, internal_error, no_such_bucket, bucket_not_empty,
}
use cubby.Store.Files.{settled, or_internal, db_try}
use cubby.Store.Atomic.{Same, Keeps, return-Keeps, fail-Keeps, db_read-Keeps, ensure-Keeps}
use cubby.Store.Uploads.{try_remove}

module _ (setup : Setup) where
  open setup use {fs, digests}

  -- An action that keeps the tables well formed, however it ends.
  unfoldable pub Preserves : {A : Type 0} → Action setup A → Type 0
  Preserves m = (w : World setup) → IsWellFormed w.db → IsWellFormed (m w).1.db

  pub kept : {A : Type 0} (m : Action setup A) → Keeps setup m → Preserves m
  unfolding Keeps Preserves
  kept m h w p = rw (h w).db p

  pub after-Preserves :
      {A B : Type 0} (r : S3Result A) (w : World setup) (k : A → Action setup B)
      → ((a : A) → Preserves (k a))
      → IsWellFormed w.db
      → IsWellFormed (after setup r w k).1.db
  unfolding Preserves
  after-Preserves (ok a) w k h p = h a w p
  after-Preserves (err e) w k h p = p
  after-Preserves panicked w k h p = p

  pub bind-Preserves :
      {A B : Type 0} (m : Action setup A) (k : A → Action setup B)
      → Preserves m
      → ((a : A) → Preserves (k a))
      → Preserves (◌>>=◌ setup m k)
  unfolding Preserves ◌>>=◌
  bind-Preserves m k h g w p = after-Preserves (m w).0 (m w).1 k g (h w p)

  -- In front of the rest, a step that keeps the metadata.
  pub first :
      {A B : Type 0} (m : Action setup A) (k : A → Action setup B)
      → Keeps setup m
      → ((a : A) → Preserves (k a))
      → Preserves (◌>>=◌ setup m k)
  first m k h g = bind-Preserves m k (kept m h) g

  pub written :
      {A : Type 0} (faults : List Bool) (r : A × Db) (w : World setup)
      → IsWellFormed w.db
      → IsWellFormed r.1
      → IsWellFormed (answered setup faults r w).1.db
  written [] (a, db) w p q = q
  written (true ∷ faults) (a, db) w p q = p
  written (false ∷ faults) (a, db) w p q = q

  -- A call of the database that does what a command does.
  pub command :
      {A : Type 0} (c : Command) (f : Db → A × Db)
      → ((db : Db) → (f db).1 ≡ execute c db)
      → Preserves (db_call setup f)
  unfolding Preserves
  command c f same w p =
      written w.db_faults (f w.db) w p (rw (same w.db) (execute-IsWellFormed c w.db p))

  pub settled-same :
      {A : Type 0} (found : Option Db) (a : A) (db : Db)
      → (settled setup (elim found [ none ↦ none | some later ↦ some (a, later) ]) db).1
        ≡ or_same db found
  settled-same none a db = refl
  settled-same (some later) a db = refl

  pub or_internal-Keeps : {A : Type 0} (found : Option A) → Keeps setup (or_internal setup found)
  or_internal-Keeps {A} none = fail-Keeps setup A internal_error
  or_internal-Keeps (some a) = return-Keeps setup a

  pub removal-Keeps : (r : Removal) (w : World setup) → Same setup w (ignore_not_found setup r w).1
  removal-Keeps gone w = record { db = refl; fired = refl }
  removal-Keeps not_found w = record { db = refl; fired = refl }
  removal-Keeps other_kind w = record { db = refl; fired = refl }

  pub remove-Preserves : (f : fs.Disk → Removal × fs.Disk) → Preserves (remove setup f)
  unfolding Preserves
  remove-Preserves f w p = rw (removal-Keeps (f w.disk).0 record w { disk = (f w.disk).1 }).db p

  pub fire-Preserves : (event : ObjectEvent) → Preserves (fire setup event)
  unfolding Preserves
  fire-Preserves event w p = p

  pub try_remove-Preserves : (f : fs.Disk → Removal × fs.Disk) → Preserves (try_remove setup f)
  unfolding Preserves
  try_remove-Preserves f w p = p

  pub return-Preserves : {A : Type 0} (a : A) → Preserves (return setup a)
  unfolding Preserves
  return-Preserves a w p = p

  -- The bucket is there.
  pub checked :
      {A : Type 0} (bucket : Text) (m : Action setup A)
      → Preserves m
      → Preserves (
          ◌>>=◌ setup
            (db_read setup (bucket_exists bucket))
            (λ exists. ◌>>=◌ setup (ensure setup no_such_bucket exists) (λ _. m)))
  checked bucket m h =
      first _ _ (db_read-Keeps setup (bucket_exists bucket))
        (λ exists. first _ _ (ensure-Keeps setup no_such_bucket exists) (λ _. h))

  -- The row and then what keeps the tables.
  pub row_then :
      {A B : Type 0} (c : Command) (f : Db → A × Db) (k : A → Action setup B)
      → ((db : Db) → (f db).1 ≡ execute c db)
      → ((a : A) → Preserves (k a))
      → Preserves (◌>>=◌ setup (db_call setup f) k)
  row_then c f k same h = bind-Preserves _ _ (command c f same) h

  pub fire_if-Preserves : (b : Bool) (event : ObjectEvent) → Preserves (fire_if setup b event)
  fire_if-Preserves true event = fire-Preserves event
  fire_if-Preserves false event = return-Preserves tt

  pub outcome_of-Preserves : (o : DeleteBucketOutcome) → Preserves (outcome_of setup o)
  outcome_of-Preserves missing = kept _ (fail-Keeps setup Unit no_such_bucket)
  outcome_of-Preserves not_empty = kept _ (fail-Keeps setup Unit bucket_not_empty)
  outcome_of-Preserves deleted = return-Preserves tt

  -- A write that SQLite can refuse.
  pub tried :
      {A : Type 0} (c : Command) (f : Db → Option (A × Db))
      → ((db : Db) → (settled setup (f db) db).1 ≡ execute c db)
      → Preserves (db_try setup f)
  tried c f same = row_then c _ _ same (λ found. kept _ (or_internal-Keeps found))

  -- The answer left out.
  pub quietly :
      {A : Type 0} (m : Action setup A)
      → Preserves m
      → Preserves (◌>>=◌ setup m (λ _. return setup tt))
  quietly m h = bind-Preserves m _ h (λ _. return-Preserves tt)
