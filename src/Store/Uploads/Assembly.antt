-- ===== src/Store/Uploads/Assembly.antt =====
-- The assembly of the parts: the temporary file gets their bytes, one after the other.
use cubby.Base.{
  ℕ, ◌+◌, ◌≡◌, refl, sym, ap, ◌∙◌, Option, none, some, List, [], ◌∷◌, ◌++◌, Text, codes, length,
  length-append, append_assoc, append-nil, arith,
}
use cubby.Multipart.{RecordedPart}
use cubby.Store.{Setup, World}
use cubby.Store.RoundTrip.{Ends}
use cubby.Store.Outcome.{
  bind_inv, Only, Only-trans, return-ok, copy_into-ok, synced-ok, with_temp-ok,
}
use cubby.Store.Uploads.{part_path, append_parts, assemble_parts}

-- The bytes of a file, in front of those of the later ones.
abbrev pub in_front : Option Text → Option Text → Option Text
in_front none rest = none
in_front (some bytes) none = none
in_front (some bytes) (some rest) = some (bytes ++ rest)

module _ (setup : Setup) (upload_id : Text) where
  open setup use {fs}

  -- The bytes of the staged parts, in their order, if every file is there.
  abbrev pub joined : List RecordedPart → fs.Disk → Option Text
  joined [] d = some []
  joined (part ∷ parts) d =
      in_front (fs.read (part_path setup upload_id part.part_number) d) (joined parts d)

  -- No part is the temporary file.
  abbrev pub IsOutsideParts : Text → Type 0
  IsOutsideParts temp = (n : ℕ) → fs.Apart temp (part_path setup upload_id n)

  joined-Only :
      (temp : Text) (parts : List RecordedPart) {w v : World setup}
      → IsOutsideParts temp
      → Only setup temp w v
      → joined parts v.disk ≡ joined parts w.disk
  joined-Only temp [] apart only = refl
  joined-Only temp (part ∷ parts) apart only =
      rw (only.files _ (apart part.part_number), joined-Only temp parts apart only) refl

  append_parts-ok :
      (temp old : Text) (total : ℕ) (parts : List RecordedPart) {n : ℕ} {w v : World setup}
      → IsOutsideParts temp
      → fs.read temp w.disk ≡ some old
      → Ends setup (append_parts setup temp upload_id total parts) w n v
      → (bytes : Text) × (joined parts w.disk ≡ some bytes)
        × (n ≡ total + length bytes)
        × (fs.read temp v.disk ≡ some (old ++ bytes))
        × Only setup temp w v
  unfolding append_parts
  append_parts-ok temp old total [] {n} {w} {v} apart here e =
      let (q, s) = return-ok setup e in
      (
        [],
        refl,
        omega (arith, sym q),
        rw (← s) (here ∙ ap some (sym (append-nil old))),
        rw (← s) record { db = refl; fired = refl; files = λ p h. refl },
      )
  append_parts-ok temp old total (part ∷ parts) {n} {w} {v} apart here e =
      let (m, u, copying, e₁) = bind_inv setup e in
      let (first, found, size, filled, only) =
        copy_into-ok setup temp (part_path setup upload_id part.part_number) old here copying in
      let (rest, later, sum, stored, only') =
        append_parts-ok temp (old ++ first) (total + m) parts apart filled e₁ in
      let before : joined parts w.disk ≡ some rest =
        sym (joined-Only temp parts apart only) ∙ later in
      (
        first ++ rest,
        rw (found, before) refl,
        omega (arith, sum, size, length-append first rest),
        stored ∙ ap some (append_assoc old first rest),
        Only-trans setup only only',
      )

  pub assemble_parts-ok :
      (parts : List RecordedPart) {staged : Text × ℕ} {w v : World setup}
      → IsOutsideParts (setup.tmp_path w.tmp_counter (codes "assemble"))
      → Ends setup (assemble_parts setup upload_id parts) w staged v
      → (bytes : Text) × (joined parts w.disk ≡ some bytes)
        × (staged.1 ≡ length bytes)
        × (fs.read staged.0 v.disk ≡ some bytes)
        × (v.db ≡ w.db)
        × (v.fired ≡ w.fired)
  unfolding assemble_parts
  assemble_parts-ok parts {staged} {w} {v} apart e =
      let temp = setup.tmp_path w.tmp_counter (codes "assemble") in
      let (u, empty, making, e₁) = with_temp-ok setup (codes "assemble") _ e in
      let (total, x, appending, e₂) = bind_inv setup e₁ in
      let (bytes, found, size, filled, only) =
        append_parts-ok temp [] 0 parts apart empty appending in
      let (q, kept, only') = synced-ok setup temp (temp, total) e₂ in
      (
        bytes,
        sym (joined-Only temp parts apart making) ∙ found,
        rw (← q) (omega (arith, size)),
        rw (← q) (kept ∙ filled),
        only'.db ∙ only.db ∙ making.db,
        only'.fired ∙ only.fired ∙ making.fired,
      )
