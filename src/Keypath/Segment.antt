-- ===== src/Keypath/Segment.antt =====
-- What `encode_segment` writes: it is the segment again when decoded, and a safe file name.
use cubby.Base.{
  ℕ, ◌/◌, ◌%◌, ◌≤◌, ◌<◌, ◌≡◌, refl, ap, ◌∙◌, inl, inr, Bool, true, false, not, ◌&&◌, ◌||◌, some, [],
  ◌∷◌, arith, Text, codes, text_eq, ◌==◌, Bool-cases, All,
}
use cubby.Base.Str.{trim_end, onto_trimmed, to_ascii_uppercase, upper}
use cubby.Keypath.{
  PercentEncoding, hex_upper, is_illegal, is_dot_or_space, stem_of, ◌>>=◌, is_reserved_stem,
  is_numbered_device, encode_reserved, encode_segment,
}
use cubby.Keypath.Encoding.{
  Encodes, end, plain, escape, decode-Encodes, Encodes-encode, IsTrimmed, escape-IsTrimmed,
  encode_trailing-Encodes,
}

-- A reserved stem begins with a letter.
numbered-first : (c : ℕ) (s : Text) → is_numbered_device (c ∷ s) ≡ true → (b'C' ≤ c) × (c ≤ b'L')
unfolding text_eq
numbered-first c (x ∷ y ∷ z ∷ []) h = (ground arith, ground arith)
numbered-first c [] h = cc
numbered-first c (x ∷ []) h = cc
numbered-first c (x ∷ y ∷ []) h = cc
numbered-first c (x ∷ y ∷ z ∷ v ∷ w) h = cc

device-first :
    (c : ℕ) (s : Text) (numbered : Bool)
    → (text_eq (c ∷ s) (codes "CON")
        || text_eq (c ∷ s) (codes "PRN")
        || text_eq (c ∷ s) (codes "AUX")
        || text_eq (c ∷ s) (codes "NUL")
        || numbered)
      ≡ true
    → (numbered ≡ true → (b'C' ≤ c) × (c ≤ b'L'))
    → (b'A' ≤ c) × (c ≤ b'P')
unfolding text_eq
device-first c s true h k = let (low, high) = k refl in (omega arith, omega arith)
device-first c s false h k = (ground arith, ground arith)

reserved-first : (c : ℕ) (s : Text) → is_reserved_stem (c ∷ s) ≡ true → (b'A' ≤ c) × (c ≤ b'p')
unfolding is_reserved_stem to_ascii_uppercase
reserved-first c s h =
    let (low, high) =
      device-first (upper c) (to_ascii_uppercase s) _ h
        (numbered-first (upper c) (to_ascii_uppercase s)) in
    (ground arith, ground arith)

not_reserved-nil : is_reserved_stem [] ≡ false
unfolding is_reserved_stem to_ascii_uppercase text_eq
not_reserved-nil = refl

not_reserved_end : is_reserved_stem (stem_of []) ≡ false
unfolding stem_of
not_reserved_end = not_reserved-nil

stem-first :
    (c : ℕ) (t : Text) → is_reserved_stem (stem_of (c ∷ t)) ≡ true → (b'A' ≤ c) × (c ≤ b'p')
unfolding stem_of
stem-first c t h = elim (Bool-cases (c == b'.')) [
  | inl dot ↦ cc (not_reserved-nil, rw dot at h)
  | inr other ↦ reserved-first c (stem_of t) (rw other at h)
]

-- So does the escape of a reserved name's first character, which is there: a reserved stem is not
-- empty. What comes out is not reserved.
onto_trimmed-tail : (c : ℕ) (t u : Text) → onto_trimmed is_dot_or_space c u ≡ c ∷ t → u ≡ t
onto_trimmed-tail c t [] h = ground arith
onto_trimmed-tail c t (d ∷ u) h = cc

cons_tail-IsTrimmed : (c : ℕ) (t : Text) → IsTrimmed (c ∷ t) → IsTrimmed t
unfolding trim_end
cons_tail-IsTrimmed c t h = onto_trimmed-tail c t (trim_end is_dot_or_space t) h

escaped-unreserved : (t : Text) → is_reserved_stem (stem_of (b'%' ∷ t)) ≡ false
escaped-unreserved t = elim (Bool-cases (is_reserved_stem (stem_of (b'%' ∷ t)))) [
  | inl res ↦ let (low, high) = stem-first b'%' t res in absurd (omega arith)
  | inr other ↦ other
]

abbrev pub IsUnreserved : Text → Type 0
IsUnreserved t = is_reserved_stem (stem_of t) ≡ false

reserved-Encodes :
    {s t : Text}
    → Encodes s t
    → IsTrimmed t
    → (r : Text) × (encode_reserved t ≡ some r) × Encodes s r × IsTrimmed r × IsUnreserved r
unfolding encode_reserved
reserved-Encodes end k = ([], ground (arith, not_reserved_end), end, k, not_reserved_end)
reserved-Encodes (plain {s} {t} c small np e) k =
    elim (Bool-cases (is_reserved_stem (stem_of (c ∷ t)))) [
      | inl res ↦
          let (low, high) = stem-first c t res in
          (
            b'%' ∷ hex_upper (c / 16) ∷ hex_upper (c % 16) ∷ t,
            rw res refl,
            escape c (c / 16) (c % 16) (omega arith) (omega arith) (omega arith) e,
            escape-IsTrimmed (c / 16) (c % 16) t (omega arith) (omega arith)
                (cons_tail-IsTrimmed c t k),
            escaped-unreserved (hex_upper (c / 16) ∷ hex_upper (c % 16) ∷ t),
          )
      | inr other ↦ (c ∷ t, rw other refl, plain c small np e, k, other)
    ]
reserved-Encodes (escape {s} {t} b hi lo h l q e) k =
    let fine = escaped-unreserved (hex_upper hi ∷ hex_upper lo ∷ t) in
    (b'%' ∷ hex_upper hi ∷ hex_upper lo ∷ t, rw fine refl, escape b hi lo h l q e, k, fine)

hex-legal : (n : ℕ) → n < 16 → (is_illegal (hex_upper n) && not (hex_upper n == b'%')) ≡ false
unfolding is_illegal
hex-legal n h = ground arith

-- No escaped text holds an illegal byte, but for the `%` of the escapes.
not_illegal_percent : (is_illegal b'%' && not (b'%' == b'%')) ≡ false
unfolding is_illegal
not_illegal_percent = refl

Encodes-legal : {s t : Text} → Encodes s t → All (λ c. (is_illegal c && not (c == b'%')) ≡ false) t
Encodes-legal end = tt
Encodes-legal (plain c small h e) = (ground arith, Encodes-legal e)
Encodes-legal (escape b hi lo h l q e) =
    (not_illegal_percent, (hex-legal hi h, (hex-legal lo l, Encodes-legal e)))

hex-ascii : (n : ℕ) → n < 16 → hex_upper n < 128
hex-ascii n h = ground arith

Encodes-ascii : {s t : Text} → Encodes s t → All (λ c. c < 128) t
Encodes-ascii end = tt
Encodes-ascii (plain c small h e) = (small, Encodes-ascii e)
Encodes-ascii (escape b hi lo h l q e) =
    (omega arith, (hex-ascii hi h, (hex-ascii lo l, Encodes-ascii e)))

-- A file name that Windows takes too: it ends in no dot and no space, is no device, and holds ASCII only
-- and no illegal byte, `%` aside.
pub record IsPortable (t : Text) : Type 0 where
  pub trimmed : IsTrimmed t
  pub unreserved : IsUnreserved t
  pub legal : All (λ c. (is_illegal c && not (c == b'%')) ≡ false) t
  pub ascii : All (λ c. c < 128) t

pub encode_segment-Encodes :
    (pe : PercentEncoding) (segment : Text)
    → All (λ b. b < 256) segment
    → (encoded : Text) × (encode_segment pe segment ≡ some encoded)
      × Encodes segment encoded
      × IsPortable encoded
unfolding encode_segment
encode_segment-Encodes pe segment bytes =
    let (trailing, ran, en, trim) = encode_trailing-Encodes (Encodes-encode pe segment bytes) in
    let (encoded, done, enc, trimmed, fine) = reserved-Encodes en trim in
    (
      encoded,
      ap (λ o. o >>= encode_reserved) ran ∙ done,
      enc,
      record {
        trimmed = trimmed;
        unreserved = fine;
        legal = Encodes-legal enc;
        ascii = Encodes-ascii enc;
      },
    )

-- `encode_segment` never panics, on any bytes: it writes a name that is portable, and that
-- `percent_decode` takes back to the segment.
pub encode_segment-IsPortable :
    (pe : PercentEncoding) (segment : Text)
    → All (λ b. b < 256) segment
    → (encoded : Text) × (encode_segment pe segment ≡ some encoded)
      × (pe.percent_decode encoded ≡ segment)
      × IsPortable encoded
encode_segment-IsPortable pe segment bytes =
    let (encoded, done, enc, portable) = encode_segment-Encodes pe segment bytes in
    (encoded, done, decode-Encodes pe enc, portable)
