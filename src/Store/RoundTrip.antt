-- ===== src/Store/RoundTrip.antt =====
-- What a successful PutObject stores, and that GetObject reads it back.
use cubby.Base.{
  ◌≡◌, refl, sym, ap, ◌∙◌, inl, inr, Bool, true, Option, none, some, List, [], ◌∷◌, ◌++◌, Text,
  append-nil, append_assoc, Bool-cases,
}
use cubby.Store.{
  S3Result, ok, err, panicked, Setup, World, Action, after, ◌>>=◌, io, cleaned, or_clean,
  write_chunks,
}

-- The bytes of a body whose chunks all arrive.
abbrev pub arrived : List (Option Text) → Text
arrived [] = []
arrived (none ∷ chunks) = arrived chunks
arrived (some bytes ∷ chunks) = bytes ++ arrived chunks

module _ (setup : Setup) where
  open setup use {fs, pe, digests}

  -- How an action ends well.
  pub record Ends {A : Type 0} (m : Action setup A) (w : World setup) (a : A) (v : World setup)
      : Type 0 where
    pub result : (m w).0 ≡ ok a
    pub state : (m w).1 ≡ v

  after-ok :
      {A B : Type 0} (r : S3Result A) (u : World setup) (k : A → Action setup B) (b : B)
      (v : World setup)
      → (after setup r u k).0 ≡ ok b
      → (after setup r u k).1 ≡ v
      → (a : A) × (r ≡ ok a) × Ends (k a) u b v
  after-ok (ok a) u k b v q s = (a, refl, record { result = q; state = s })
  after-ok (err e) u k b v q s = cc
  after-ok panicked u k b v q s = cc

  pub bind-ok :
      {A B : Type 0} (m : Action setup A) (k : A → Action setup B) (w : World setup) (b : B)
      (v : World setup)
      → Ends (◌>>=◌ setup m k) w b v
      → (a : A) × Ends m w a (m w).1 × Ends (k a) (m w).1 b v
  unfolding ◌>>=◌
  bind-ok m k w b v e =
      let (a, r, rest) = after-ok (m w).0 (m w).1 k b v e.result e.state in
      (a, record { result = r; state = refl }, rest)

  -- The parts of the state that the streaming leaves alone.
  pub record Kept (w v : World setup) : Type 0 where
    pub db : v.db ≡ w.db
    pub faults : v.db_faults ≡ w.db_faults

  pub Kept-trans : (u v w : World setup) → Kept u v → Kept v w → Kept u w
  Kept-trans u v w s t = record { db = t.db ∙ s.db; faults = t.faults ∙ s.faults }

  pub io-ok :
      (f : fs.Disk → Bool × fs.Disk) (w v : World setup) (u : Unit)
      → Ends (io setup f) w u v
      → ((f w.disk).0 ≡ true) × (v.disk ≡ (f w.disk).1) × Kept w v
  io-ok f w v u e = elim (Bool-cases (f w.disk).0) [
    | inl t ↦
        let s = rw t at e.state in
        (
          t,
          ap (λ x. x.disk) (sym s),
          record { db = ap (λ x. x.db) (sym s); faults = ap (λ x. x.db_faults) (sym s) },
        )
    | inr n ↦ absurd (cc (rw n at e.result))
  ]

  clean-ok :
      {A : Type 0} (temp : Text) (r : S3Result A) (w : World setup) (a : A) (v : World setup)
      → (cleaned setup temp r w).0 ≡ ok a
      → (cleaned setup temp r w).1 ≡ v
      → (r ≡ ok a) × (w ≡ v)
  clean-ok temp (ok x) w a v q s = (q, s)
  clean-ok temp (err e) w a v q s = cc
  clean-ok temp panicked w a v q s = cc

  pub or_clean-ok :
      {A : Type 0} (temp : Text) (m : Action setup A) (w : World setup) (a : A) (v : World setup)
      → Ends (or_clean setup temp m) w a v
      → Ends m w a v
  or_clean-ok temp m w a v e =
      let (r, s) = clean-ok temp (m w).0 (m w).1 a v e.result e.state in
      record { result = r; state = s }

  -- The temporary file has the bytes seen so far.
  pub write_chunks-ok :
      (temp seen : Text) (chunks : List (Option Text)) (w : World setup) (bytes : Text)
      (v : World setup)
      → fs.read temp w.disk ≡ some seen
      → Ends (write_chunks setup temp seen chunks) w bytes v
      → (bytes ≡ seen ++ arrived chunks) × (fs.read temp v.disk ≡ some bytes) × Kept w v
  unfolding write_chunks
  write_chunks-ok temp seen [] w bytes v h e =
      let same : seen ≡ bytes = cc e.result in
      (
        sym same ∙ sym (append-nil seen),
        rw (← e.state) (h ∙ ap some same),
        rw (← e.state) record { db = refl; faults = refl },
      )
  write_chunks-ok temp seen (none ∷ chunks) w bytes v h e = absurd (cc e.result)
  write_chunks-ok temp seen (some more ∷ chunks) w bytes v h e =
      let (_, first, rest) =
        bind-ok (io setup (fs.write_all temp more))
          (λ _. write_chunks setup temp (seen ++ more) chunks) w bytes v e in
      let u = (io setup (fs.write_all temp more) w).1 in
      let (wrote, disk, kept) = io-ok (fs.write_all temp more) w u tt first in
      let here = rw (← disk) at (fs.read-write_all temp more seen w.disk h wrote) in
      let (q, reads, later) = write_chunks-ok temp (seen ++ more) chunks u bytes v here rest in
      (q ∙ append_assoc seen more (arrived chunks), reads, Kept-trans w u v kept later)
