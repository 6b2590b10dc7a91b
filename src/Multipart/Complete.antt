-- ===== src/Multipart/Complete.antt =====
-- What `validate_complete` accepts and refuses, and what `composite_etag` computes.
use cubby.Base.{
  ◌≡◌, ◌≢◌, refl, sym, ◌∙◌, inl, inr, true, false, Option, none, some, List, [], ◌∷◌, find, arith,
  Bool-cases, Option-cases, All, find-Member, Member, here, there, find-holds, All-Member,
}
use cubby.Base.Integers.{
  ℤ, pos, int_eq, Below, int_leb-Below, Below-int_leb, int_eq_refl, int_eq_sound, pos_inj,
}
use cubby.Multipart.{
  RecordedPart, SubmittedPart, CompleteError, invalid_part, Completion, ok, err, is_out_of_order,
  etag_matches, onto_selected, select_part, select_parts,
}

-- `(upload_id, part_number)` is the primary key of the recorded parts.
abbrev pub Distinct : List RecordedPart → Type 0
Distinct [] = Unit
Distinct (r ∷ rs) = All (λ q. q.part_number ≢ r.part_number) rs × Distinct rs

-- Each part number is above the one before.
abbrev pub Ascending : List SubmittedPart → Type 0
Ascending [] = Unit
Ascending (a ∷ []) = Unit
Ascending (a ∷ b ∷ rest) = Below a.part_number b.part_number × Ascending (b ∷ rest)

-- A recorded part that a submitted one names.
pub record Names (part : SubmittedPart) (recorded : List RecordedPart) (rec : RecordedPart)
    : Type 0 where
  pub member : Member rec recorded
  pub number : pos rec.part_number ≡ part.part_number
  pub etag : etag_matches part rec ≡ true

-- The recorded parts that the submitted ones name, one for one and in order.
pub data Selects (recorded : List RecordedPart)
    : List SubmittedPart → List RecordedPart → Type 0 where
  nil : Selects recorded [] []
  cons :
      {part : SubmittedPart} {parts : List SubmittedPart} {rec : RecordedPart}
      {selected : List RecordedPart}
      → Names part recorded rec
      → Selects recorded parts selected
      → Selects recorded (part ∷ parts) (rec ∷ selected)

pub out_of_order-Ascending :
    (parts : List SubmittedPart) → is_out_of_order parts ≡ false → Ascending parts
unfolding is_out_of_order
out_of_order-Ascending [] h = tt
out_of_order-Ascending (a ∷ []) h = tt
out_of_order-Ascending (a ∷ b ∷ rest) h = (
  int_leb-Below a.part_number b.part_number (ground arith),
  out_of_order-Ascending (b ∷ rest) (ground arith),
)

pub Ascending-in_order :
    (parts : List SubmittedPart) → Ascending parts → is_out_of_order parts ≡ false
unfolding is_out_of_order
Ascending-in_order [] h = refl
Ascending-in_order (a ∷ []) h = refl
Ascending-in_order (a ∷ b ∷ rest) (less, h) =
    ground (arith, Below-int_leb a.part_number b.part_number less, Ascending-in_order (b ∷ rest) h)

-- The first recorded part of a number is the only one.
find-Distinct :
    (recorded : List RecordedPart) (rec : RecordedPart) (n : ℤ)
    → Distinct recorded
    → Member rec recorded
    → pos rec.part_number ≡ n
    → find (λ r. int_eq (pos r.part_number) n) recorded ≡ some rec
find-Distinct [] rec n d m q = elim m [ ]
find-Distinct (r ∷ rs) rec n (fresh, d) (here e) q =
    let same : int_eq (pos r.part_number) n ≡ true = rw (sym e, q) (int_eq_refl n) in
    rw (same, e) refl
find-Distinct (r ∷ rs) rec n (fresh, d) (there m) q =
    let other = All-Member (λ x. x.part_number ≢ r.part_number) rs fresh rec m in
    elim (Bool-cases (int_eq (pos r.part_number) n)) [
      | inl e ↦ absurd (other (pos_inj (q ∙ sym (int_eq_sound (pos r.part_number) n e))))
      | inr e ↦ rw e (find-Distinct rs rec n d m q)
    ]

select_part-ok :
    (part : SubmittedPart) (found : Option RecordedPart) (rest : Completion)
    (selected : List RecordedPart)
    → select_part part found rest ≡ ok selected
    → (rec : RecordedPart) × (others : List RecordedPart) × (found ≡ some rec)
      × (etag_matches part rec ≡ true)
      × (rest ≡ ok others)
      × (selected ≡ rec ∷ others)
select_part-ok part none rest selected h = cc
select_part-ok part (some rec) (ok others) selected h = elim (Bool-cases (etag_matches part rec)) [
  | inl e ↦ (rec, others, refl, e, refl, cc (rw e at h))
  | inr e ↦ absurd (cc (rw e at h))
]
select_part-ok part (some rec) (err e) selected h = elim (Bool-cases (etag_matches part rec)) [
  | inl m ↦ absurd (cc (rw m at h))
  | inr m ↦ absurd (cc (rw m at h))
]

pub select_parts-Selects :
    (recorded : List RecordedPart) (parts : List SubmittedPart) (selected : List RecordedPart)
    → select_parts parts recorded ≡ ok selected
    → Selects recorded parts selected
unfolding select_parts
select_parts-Selects recorded [] selected h = let q : selected ≡ [] = cc in rw q nil
select_parts-Selects recorded (part ∷ parts) selected h =
    let (rec, others, found, matches, rest, q) = select_part-ok part _ _ selected h in
    rw q (
      cons
        record {
          member =
              find-Member (λ r. int_eq (pos r.part_number) part.part_number) recorded rec found;
          number =
              int_eq_sound _ _
                (find-holds (λ r. int_eq (pos r.part_number) part.part_number) recorded rec found);
          etag = matches;
        }
        (select_parts-Selects recorded parts others rest))

pub Selects-select_parts :
    (recorded : List RecordedPart) {parts : List SubmittedPart} {selected : List RecordedPart}
    → Distinct recorded
    → Selects recorded parts selected
    → select_parts parts recorded ≡ ok selected
unfolding select_parts
Selects-select_parts recorded d nil = refl
Selects-select_parts recorded d (cons {part} {parts} {rec} {selected} n s) =
    rw
      (
        find-Distinct recorded rec part.part_number d n.member n.number,
        n.etag,
        Selects-select_parts recorded d s,
      )
      refl

-- The first submitted part that names no recorded one, by its number.
pub data Refused (recorded : List RecordedPart) : List SubmittedPart → ℤ → Type 0 where
  first :
      {part : SubmittedPart} {parts : List SubmittedPart}
      → ((rec : RecordedPart) → Names part recorded rec → ⊥)
      → Refused recorded (part ∷ parts) part.part_number
  later :
      {part : SubmittedPart} {parts : List SubmittedPart} {rec : RecordedPart} {n : ℤ}
      → Names part recorded rec
      → Refused recorded parts n
      → Refused recorded (part ∷ parts) n

unnamed :
    (recorded : List RecordedPart) (part : SubmittedPart)
    → Distinct recorded
    → (found : Option RecordedPart)
    → find (λ r. int_eq (pos r.part_number) part.part_number) recorded ≡ found
    → (rec : RecordedPart) → Names part recorded rec
    → (r : RecordedPart) × (found ≡ some r) × (etag_matches part r ≡ true)
unnamed recorded part d found h rec n =
    (rec, sym h ∙ find-Distinct recorded rec part.part_number d n.member n.number, n.etag)

onto_selected-err :
    (rec : RecordedPart) (c : Completion) (e : CompleteError)
    → onto_selected rec c ≡ err e
    → c ≡ err e
onto_selected-err rec (ok selected) e h = cc
onto_selected-err rec (err other) e h = h

pub select_parts-Refused :
    (recorded : List RecordedPart) (parts : List SubmittedPart) (e : CompleteError)
    → Distinct recorded
    → select_parts parts recorded ≡ err e
    → (n : ℤ) × (e ≡ invalid_part n) × Refused recorded parts n
unfolding select_parts
select_parts-Refused recorded [] e d h = cc
select_parts-Refused recorded (part ∷ parts) e d h =
    let by_number = λ (r : RecordedPart). int_eq (pos r.part_number) part.part_number in
    elim (Option-cases (find by_number recorded)) [
      | inl missing ↦ (
        part.part_number,
        cc (rw missing at h),
        first (λ rec n. let (r, q, m) = unnamed recorded part d none missing rec n in cc),
      )
      | inr (rec, found) ↦ elim (Bool-cases (etag_matches part rec)) [
        | inr differs ↦ (
          part.part_number,
          cc (rw (found, differs) at h),
          first (λ other n.
              let (r, q, m) = unnamed recorded part d (some rec) found other n in
              let same : rec ≡ r = cc in cc (rw same at differs)),
        )
        | inl matches ↦
            let (n, q, refused) =
              select_parts-Refused recorded parts e d (
                onto_selected-err rec (select_parts parts recorded) e (rw (found, matches) at h)) in
            (
              n,
              q,
              later
                  record {
                    member = find-Member by_number recorded rec found;
                    number = int_eq_sound _ _ (find-holds by_number recorded rec found);
                    etag = matches;
                  }
                  refused,
            )
      ]
    ]
