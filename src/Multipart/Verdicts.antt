-- ===== src/Multipart/Verdicts.antt =====
-- The answer of `validate_complete` on every part list, and what `composite_etag` computes.
use cubby.Base.{
  suc, ◌≡◌, ◌≢◌, ◌↔◌, ◌⊎◌, refl, ap, inl, inr, some, List, [], ◌∷◌, ◌++◌, Text, map, codes, length,
  Bool-cases,
}
use cubby.Base.Integers.{ℤ}
use cubby.Multipart.{
  RecordedPart, SubmittedPart, CompleteError, empty, out_of_order, invalid_part, Completion, ok,
  err, Digests, raw_digests, composite_etag, is_out_of_order, select_parts, validate_complete,
}
use cubby.Multipart.Complete.{
  Distinct, Ascending, Selects, Refused, out_of_order-Ascending, Ascending-in_order,
  select_parts-Selects, Selects-select_parts, select_parts-Refused,
}

-- What the check of a part list is to answer, each case with its condition.
pub data Verdict (recorded : List RecordedPart) (parts : List SubmittedPart)
    : Completion → Type 0 where
  no_parts : parts ≡ [] → Verdict recorded parts (err empty)
  disordered : (Ascending parts → ⊥) → Verdict recorded parts (err out_of_order)
  refused :
      (n : ℤ)
      → Ascending parts
      → Refused recorded parts n
      → Verdict recorded parts (err (invalid_part n))
  accepted :
      (selected : List RecordedPart)
      → parts ≢ []
      → Ascending parts
      → Selects recorded parts selected
      → Verdict recorded parts (ok selected)

Completion-cases :
    (c : Completion)
    → ((selected : List RecordedPart) × (c ≡ ok selected)) ⊎ ((e : CompleteError) × (c ≡ err e))
Completion-cases (ok selected) = inl (selected, refl)
Completion-cases (err e) = inr (e, refl)

select_parts-Verdict :
    (recorded : List RecordedPart) (parts : List SubmittedPart)
    → Distinct recorded
    → parts ≢ []
    → Ascending parts
    → Verdict recorded parts (select_parts parts recorded)
select_parts-Verdict recorded parts d some_parts up =
    elim (Completion-cases (select_parts parts recorded)) [
      | inl (selected, e) ↦
          rw e (accepted selected some_parts up (select_parts-Selects recorded parts selected e))
      | inr (e, h) ↦
          let (n, q, r) = select_parts-Refused recorded parts e d h in rw (h, q) (refused n up r)
    ]

-- `validate_complete` gives the verdict of the specification on every part list, when the recorded
-- parts have distinct numbers: `Empty` for no parts, `OutOfOrder` unless the numbers ascend,
-- `InvalidPart` of the first part that names no recorded part by number and ETag, and else the
-- recorded parts that are named, in order.
pub validate_complete-Verdict :
    (recorded : List RecordedPart) (parts : List SubmittedPart)
    → Distinct recorded
    → Verdict recorded parts (validate_complete parts recorded)
unfolding validate_complete
validate_complete-Verdict recorded [] d = no_parts refl
validate_complete-Verdict recorded (part ∷ parts) d =
    elim (Bool-cases (is_out_of_order (part ∷ parts))) [
      | inl e ↦ rw e (disordered (λ up. cc (Ascending-in_order (part ∷ parts) up)))
      | inr e ↦ rw e (
          select_parts-Verdict recorded (part ∷ parts) d (λ q. cc)
            (out_of_order-Ascending (part ∷ parts) e))
    ]

-- A part list is accepted, with a given selection, exactly when it is not empty, ascends, and its
-- parts name the recorded parts of the selection one for one, if those have distinct numbers.
pub validate_complete-accepts :
    (recorded : List RecordedPart) (parts : List SubmittedPart) (selected : List RecordedPart)
    → Distinct recorded
    → (validate_complete parts recorded ≡ ok selected)
      ↔ ((parts ≢ []) × Ascending parts × Selects recorded parts selected)
unfolding validate_complete
validate_complete-accepts recorded [] selected d = (λ h. cc, λ h. absurd (h.0 refl))
validate_complete-accepts recorded (part ∷ parts) selected d = (
  λ h. elim (Bool-cases (is_out_of_order (part ∷ parts))) [
    | inl e ↦ absurd (cc (rw e at h))
    | inr e ↦ (
      (λ q. cc),
      out_of_order-Ascending (part ∷ parts) e,
      select_parts-Selects recorded (part ∷ parts) selected (rw e at h),
    )
  ],
  λ h. rw (Ascending-in_order (part ∷ parts) h.1) (Selects-select_parts recorded d h.2),
)

pub concat : List Text → Text
concat [] = []
concat (s ∷ rest) = s ++ concat rest

-- The raw digests are fed to the hasher in order, when each part's ETag is a digest in hex, as
-- UploadPart records it.
raw_digests-encoded :
    (digests : Digests) (raws : List Text)
    → raw_digests digests (map digests.hex_encode raws) ≡ some (concat raws)
unfolding raw_digests concat
raw_digests-encoded digests [] = refl
raw_digests-encoded digests (raw ∷ raws) =
    rw (digests.decode-encode raw, raw_digests-encoded digests raws) refl

length-map : (f : Text → Text) (xs : List Text) → length (map f xs) ≡ length xs
length-map f [] = refl
length-map f (x ∷ xs) = ap suc (length-map f xs)

-- `composite_etag` does not panic on recorded digests: it is the hex MD5 of the digests' bytes in
-- order, a dash and the number of parts.
pub composite_etag-encoded :
    (digests : Digests) (raws : List Text)
    → composite_etag digests (map digests.hex_encode raws)
      ≡ some (
          digests.hex_encode (digests.md5 (concat raws))
          ++ (codes "-" ++ digests.decimal (length raws)))
unfolding composite_etag
composite_etag-encoded digests raws =
    rw (raw_digests-encoded digests raws, length-map digests.hex_encode raws) refl
