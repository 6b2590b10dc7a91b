-- ===== src/Reindex/Adds.antt =====
-- What the steps of the scan add to the tables.
use cubby.Base.{
  &&_left, &&_right, ℕ, ◌≡◌, refl, sym, ap, ◌∙◌, inl, inr, Bool, true, false, ◌&&◌, Option, none,
  some, List, [], ◌∷◌, Text, text_eq, text_eq_iff, if◌then◌else◌, is_some, Bool-cases,
}
use cubby.Db.{
  Db, BucketRow, ObjectRow, bucket_key, object_key, bucket_exists, create_bucket, put_object,
  get_object,
}
use cubby.Db.Table.{key_eq, Sorted, select_row, upsert-Sorted, select_row-upsert}
use cubby.Db.Laws.{get_object-put_object}
use cubby.Reindex.{ReindexReport, Scan, Action, after, ◌>>=◌, answered, db_call, count}

-- Every object row is as it was, and every bucket is there.
pub record Extends (db later : Db) : Type 0 where
  pub rows :
      (b k : Text) (row : ObjectRow)
      → get_object b k db ≡ some row
      → get_object b k later ≡ some row
  pub buckets : (b : Text) → bucket_exists b db ≡ true → bucket_exists b later ≡ true

pub record InOrder (db : Db) : Type 0 where
  pub objects : Sorted object_key db.objects
  pub buckets : Sorted bucket_key db.buckets

pub Extends-refl : (db : Db) → Extends db db
Extends-refl db = record { rows = λ b k row h. h; buckets = λ b h. h }

Extends-trans : {a b c : Db} → Extends a b → Extends b c → Extends a c
Extends-trans f g = record {
  rows = λ b k row h. g.rows b k row (f.rows b k row h);
  buckets = λ b h. g.buckets b (f.buckets b h);
}

-- What an action adds to the tables of one state.
pub record Adds {A : Type 0} (m : Action A) (s : Scan) : Type 0 where
  pub order : InOrder (m s).1.db
  pub extends : Extends s.db (m s).1.db

unfoldable pub Additive : {A : Type 0} → Action A → Type 0
Additive m = (s : Scan) → InOrder s.db → Adds m s

pub keeps : {A : Type 0} (m : Action A) (s : Scan) → InOrder s.db → (m s).1.db ≡ s.db → Adds m s
keeps m s o h = record { order = rw h o; extends = rw h (Extends-refl s.db) }

after-Adds :
    {A B : Type 0} (r : Option A) (s t : Scan) (k : A → Action B)
    → InOrder t.db
    → Extends s.db t.db
    → ((a : A) → r ≡ some a → Adds (k a) t)
    → InOrder (after r t k).1.db × Extends s.db (after r t k).1.db
after-Adds none s t k o e h = (o, e)
after-Adds (some a) s t k o e h =
    let later = h a refl in (later.order, Extends-trans e later.extends)

pub bind-Adds :
    {A B : Type 0} (m : Action A) (k : A → Action B) (s : Scan)
    → Adds m s
    → ((a : A) → (m s).0 ≡ some a → Adds (k a) (m s).1)
    → Adds (m >>= k) s
unfolding ◌>>=◌
bind-Adds m k s first h =
    let (o, e) = after-Adds (m s).0 s (m s).1 k first.order first.extends h in
    record { order = o; extends = e }

pub bind-Additive :
    {A B : Type 0} (m : Action A) (k : A → Action B)
    → Additive m
    → ((a : A) → Additive (k a))
    → Additive (m >>= k)
unfolding Additive
bind-Additive m k h g s o =
    let first = h s o in bind-Adds m k s first (λ a e. g a (m s).1 first.order)

-- A lookup, in front of what depends on its answer.
pub read_answer :
    {A : Type 0} (faults : List Bool) (x a : A) (s : Scan)
    → (answered faults (x, s.db) s).0 ≡ some a
    → (x ≡ a)
read_answer [] x a s h = cc
read_answer (true ∷ faults) x a s h = cc
read_answer (false ∷ faults) x a s h = cc

pub read_state :
    {A : Type 0} (faults : List Bool) (x : A) (s : Scan) → (answered faults (x, s.db) s).1.db ≡ s.db
read_state [] x s = refl
read_state (true ∷ faults) x s = refl
read_state (false ∷ faults) x s = refl

pub read-Additive :
    {A B : Type 0} (f : Db → A) (k : A → Action B)
    → ((a : A) (s : Scan) → f s.db ≡ a → InOrder s.db → Adds (k a) s)
    → Additive (db_call (λ db. (f db, db)) >>= k)
unfolding Additive
read-Additive f k h s o =
    let same = read_state s.faults (f s.db) s in
    bind-Adds (db_call (λ db. (f db, db))) k s (keeps (db_call (λ db. (f db, db))) s o same) (λ a e.
      h a (answered s.faults (f s.db, s.db) s).1 (ap f same ∙ read_answer s.faults (f s.db) a s e)
        (rw same o))

pub count-Additive : (f : ReindexReport → ReindexReport) → Additive (count f)
unfolding Additive
count-Additive f s o = keeps (count f) s o refl

pub written :
    {A : Type 0} (faults : List Bool) (r : A × Db) (s : Scan)
    → InOrder s.db
    → InOrder r.1
    → Extends s.db r.1
    → InOrder (answered faults r s).1.db × Extends s.db (answered faults r s).1.db
written [] (a, db) s o p e = (p, e)
written (true ∷ faults) (a, db) s o p e = (o, Extends-refl s.db)
written (false ∷ faults) (a, db) s o p e = (p, e)

pub write-Adds :
    {A : Type 0} (f : Db → A × Db) (s : Scan)
    → InOrder s.db
    → InOrder (f s.db).1
    → Extends s.db (f s.db).1
    → Adds (db_call f) s
write-Adds f s o p e =
    let (q, g) = written s.faults (f s.db) s o p e in record { order = q; extends = g }

-- A row for a key that had none.
pub put_object-Extends :
    (row : ObjectRow) (db : Db)
    → InOrder db
    → get_object row.bucket row.key db ≡ none
    → Extends db (put_object row db)
put_object-Extends row db o missing = record {
  rows = λ b k r h. other (text_eq row.bucket b && text_eq row.key k) b k r refl h;
  buckets = λ b h. unfold put_object bucket_exists in h;
}
  where
    other :
        (t : Bool) (b k : Text) (r : ObjectRow)
        → (text_eq row.bucket b && text_eq row.key k) ≡ t
        → get_object b k db ≡ some r
        → get_object b k (put_object row db) ≡ some r
    other false b k r e h = get_object-put_object b k row db o.objects ∙ rw e h
    other true b k r e h =
        let x = &&_left _ _ e in
        let y = &&_right _ _ e in
        let bucket = (text_eq_iff row.bucket b).0 x in
        let key = (text_eq_iff row.key k).0 y in absurd (cc (sym (rw (bucket, key) at missing) ∙ h))

pub put_object-InOrder : (row : ObjectRow) (db : Db) → InOrder db → InOrder (put_object row db)
unfolding put_object
put_object-InOrder row db o = record {
  objects = upsert-Sorted object_key row db.objects o.objects;
  buckets = o.buckets;
}

-- A bucket that is created leaves the others and all objects.
pub create_bucket-Extends :
    (name : Text) (at_time : ℕ) (db : Db)
    → InOrder db
    → Extends db (create_bucket name at_time db).1
unfolding create_bucket get_object bucket_exists key_eq text_eq
create_bucket-Extends name at_time db o = elim (Bool-cases (bucket_exists name db)) [
  | inl there ↦ rw there (Extends-refl db)
  | inr missing ↦ rw missing record {
    rows = λ b k row h. h;
    buckets = λ b h.
        let row : BucketRow = record { name = name; created_at = at_time } in
        rw (select_row-upsert bucket_key (b, []) row db.buckets o.buckets)
          (still (text_eq name b && true) b h);
  }
]
  where
    still :
        (t : Bool) (b : Text)
        → bucket_exists b db ≡ true
        → is_some (
            if t
            then some record { name = name; created_at = at_time }
            else select_row bucket_key (b, []) db.buckets)
          ≡ true
    still true b h = refl
    still false b h = h

pub create_bucket-InOrder :
    (name : Text) (at_time : ℕ) (db : Db) → InOrder db → InOrder (create_bucket name at_time db).1
unfolding create_bucket
create_bucket-InOrder name at_time db o = elim (Bool-cases (bucket_exists name db)) [
  | inl there ↦ rw there o
  | inr missing ↦ rw missing record {
    objects = o.objects;
    buckets =
        upsert-Sorted bucket_key record { name = name; created_at = at_time } db.buckets o.buckets;
  }
]

pub not_there : (o : Option ObjectRow) → is_some o ≡ false → o ≡ none
not_there none h = refl
not_there (some row) h = cc
