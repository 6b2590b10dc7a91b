-- ===== src/Multipart.antt =====
-- src/multipart.rs: the composite ETag, the comparison of ETags and the check of a client's part list.
pub mod Complete
pub mod Verdicts
pub mod Tests
use cubby.Base.{
  ℕ, zero, suc, ◌+◌, ◌≤◌, ◌<◌, ◌≡◌, Bool, true, false, not, ◌&&◌, ◌||◌, Option, none, some, List,
  [], ◌∷◌, ◌++◌, Text, codes, leb, ◌==◌, if◌then◌else◌, find, length, unwrap_or, strip_prefix,
  is_empty,
}
use cubby.Base.Integers.{ℤ, pos, negsuc, int_leb, int_eq}
use cubby.Base.Str.{trim, strip_last, eq_ignore_ascii_case}

-- Part numbers and sizes are positive where parts are recorded (`PartNumber` from 1 to 10000).
pub record RecordedPart : Type 0 where
  pub part_number : ℕ
  pub size : ℕ
  pub etag_hex : Text

-- What the client submits is an `i32` of any sign.
pub record SubmittedPart : Type 0 where
  pub part_number : ℤ
  pub etag : Text

pub data CompleteError : Type 0 where
  empty out_of_order : CompleteError
  invalid_part : ℤ → CompleteError

-- `Result<Vec<RecordedPart>, CompleteError>`
pub data Completion : Type 0 where
  ok : List RecordedPart → Completion
  err : CompleteError → Completion

-- The crates md-5 and hex, and `{}` of a number: `decode` panics (`none`) on what is no hex.
pub record Digests : Type 0 where
  pub md5 : Text → Text
  pub hex_encode : Text → Text
  pub hex_decode : Text → Option Text
  pub decimal : ℕ → Text
  pub decode-encode : (raw : Text) → hex_decode (hex_encode raw) ≡ some raw

-- The `expect` on a digest, and `hasher.update`, in front of the later ones.
abbrev pub update : Option Text → Option Text → Option Text
update none rest = none
update (some raw) none = none
update (some raw) (some rest) = some (raw ++ rest)

module _ (digests : Digests) where
  -- What the hasher is fed: the raw digests one after the other.
  unfoldable pub raw_digests : List Text → Option Text
  raw_digests [] = some []
  raw_digests (h ∷ hs) = update (digests.hex_decode h) (raw_digests hs)

  abbrev pub finalize : ℕ → Option Text → Option Text
  finalize count none = none
  finalize count (some raw) =
      some (digests.hex_encode (digests.md5 raw) ++ (codes "-" ++ digests.decimal count))

  unfoldable pub composite_etag : List Text → Option Text
  unfolding raw_digests
  composite_etag part_md5_hex = finalize (length part_md5_hex) (raw_digests part_md5_hex)

-- `s.strip_prefix('"').and_then(|s| s.strip_suffix('"')).unwrap_or(s)`
abbrev pub unquoted : Text → Text
unquoted s = elim (strip_prefix s (codes "\"")) [
  | none ↦ s
  | some t ↦ unwrap_or (strip_last t b'"') s
]

unfoldable pub normalize_etag : Text → Text
normalize_etag etag =
    let s = trim etag in unquoted (trim (unwrap_or (strip_prefix s (codes "W/")) s))

-- `for w in submitted.windows(2)`
unfoldable pub is_out_of_order : List SubmittedPart → Bool
is_out_of_order [] = false
is_out_of_order (a ∷ []) = false
is_out_of_order (a ∷ b ∷ rest) = int_leb b.part_number a.part_number || is_out_of_order (b ∷ rest)

abbrev pub etag_matches : SubmittedPart → RecordedPart → Bool
etag_matches part rec = eq_ignore_ascii_case (normalize_etag part.etag) rec.etag_hex

-- `selected.push(rec.clone())`, unless a later part is refused.
abbrev pub onto_selected : RecordedPart → Completion → Completion
onto_selected rec (ok rest) = ok (rec ∷ rest)
onto_selected rec (err e) = err e

abbrev pub select_part : SubmittedPart → Option RecordedPart → Completion → Completion
select_part part none rest = err (invalid_part part.part_number)
select_part part (some rec) rest =
    if not (etag_matches part rec)
    then err (invalid_part part.part_number)
    else onto_selected rec rest

unfoldable pub select_parts : List SubmittedPart → List RecordedPart → Completion
unfolding normalize_etag
select_parts [] recorded = ok []
select_parts (part ∷ submitted) recorded =
    select_part part (find (λ r. int_eq (pos r.part_number) part.part_number) recorded)
      (select_parts submitted recorded)

unfoldable pub validate_complete : List SubmittedPart → List RecordedPart → Completion
unfolding select_parts is_out_of_order
validate_complete submitted recorded =
    if is_empty submitted
    then err empty
    else if is_out_of_order submitted
    then err out_of_order
    else select_parts submitted recorded
