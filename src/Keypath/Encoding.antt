-- ===== src/Keypath/Encoding.antt =====
-- `encode_segment` never panics, and what it writes decodes to the segment.
use cubby.Base.{
  ℕ, suc, ◌+◌, ◌*◌, ◌/◌, ◌%◌, ◌<◌, ◌≡◌, ◌≢◌, ◌↔◌, refl, ap, ◌∙◌, inl, inr, true, false, ◌||◌,
  Option, none, some, [], ◌∷◌, ◌++◌, arith, Text, leb, ◌==◌, if◌then◌else◌, Bool-cases,
  Option-cases, All, List-cases, length, drop,
}
use cubby.Base.Str.{trim_end}
use cubby.Keypath.{
  PercentEncoding, hex_upper, is_illegal, is_dot_or_space, encode_char, encode_run, encode_trailing,
  ◌>>=◌,
}

-- A text that stands for some bytes: each byte as it is, if it is in no set, or as an escape.
pub data Encodes : Text → Text → Type 0 where
  end : Encodes [] []
  plain :
      {s t : Text} (c : ℕ) → c < 128 → is_illegal c ≡ false → Encodes s t → Encodes (c ∷ s) (c ∷ t)
  escape :
      {s t : Text} (b hi lo : ℕ)
      → hi < 16
      → lo < 16
      → b ≡ hi * 16 + lo
      → Encodes s t
      → Encodes (b ∷ s) (b'%' ∷ hex_upper hi ∷ hex_upper lo ∷ t)

module _ (pe : PercentEncoding) where
  open pe use {percent_encode, percent_decode}

  pub decode-Encodes : {s t : Text} → Encodes s t → percent_decode t ≡ s
  unfolding is_illegal
  decode-Encodes end = pe.decode-nil
  decode-Encodes (plain c small h e) =
      pe.decode-plain c _ (λ e. cc (rw e at h)) ∙ ap (λ r. c ∷ r) (decode-Encodes e)
  decode-Encodes (escape b hi lo h l q e) =
      pe.decode-escape hi lo _ h l ∙ rw q (ap (λ r. (hi * 16 + lo) ∷ r) (decode-Encodes e))

  -- `percent_encode` writes such a text of any bytes, since `%` is in the set.
  pub Encodes-encode : (s : Text) → All (λ b. b < 256) s → Encodes s (percent_encode s is_illegal)
  unfolding is_illegal
  Encodes-encode [] h = rw pe.encode-nil end
  Encodes-encode (b ∷ s) (small, h) = elim (Bool-cases (is_illegal b || leb 128 b)) [
    | inl escaped ↦
        rw (pe.encode-escaped is_illegal b s small escaped) (
          escape b (b / 16) (b % 16) (omega arith) (omega arith) (omega arith) (Encodes-encode s h))
    | inr kept ↦
        rw (pe.encode-kept is_illegal b s (ground arith) (ground arith))
          (plain b (ground arith) (ground arith) (Encodes-encode s h))
  ]

-- Whether the trimmed text loses its first character: only with all the others.
trim-cons :
    (c : ℕ) (t : Text)
    → is_dot_or_space c ≡ false
    → trim_end is_dot_or_space (c ∷ t) ≡ c ∷ trim_end is_dot_or_space t
unfolding trim_end
trim-cons c t h = ground arith

trim-cons_run :
    (c : ℕ) (t : Text)
    → trim_end is_dot_or_space (c ∷ t) ≢ []
    → trim_end is_dot_or_space (c ∷ t) ≡ c ∷ trim_end is_dot_or_space t
unfolding trim_end
trim-cons_run c t h = ground arith

trim-nil :
    (c : ℕ) (t : Text)
    → trim_end is_dot_or_space (c ∷ t) ≡ []
    → (is_dot_or_space c ≡ true) × (trim_end is_dot_or_space t ≡ [])
unfolding trim_end
trim-nil c t h = ground arith

-- How the branch of `encode_trailing` on a kept first character comes from the branch on the rest.
place_kept :
    (c : ℕ) (t r trimmed : Text)
    → (if length trimmed == length t
        then some t
        else encode_run (drop (length trimmed) t) >>= λ run. some (trimmed ++ run))
      ≡ some r
    → (if suc (length trimmed) == suc (length t)
        then some (c ∷ t)
        else encode_run (drop (length trimmed) t) >>= λ run. some (c ∷ trimmed ++ run))
      ≡ some (c ∷ r)
place_kept c t r trimmed h = elim (Option-cases (encode_run (drop (length trimmed) t))) [
  | inl e ↦ let k = rw e at h in rw e (ground arith)
  | inr (run, e) ↦ let k = rw e at h in rw e (ground arith)
]

-- A character that stays leaves the rest to be encoded.
trailing-cons :
    (c : ℕ) (t r : Text)
    → trim_end is_dot_or_space (c ∷ t) ≡ c ∷ trim_end is_dot_or_space t
    → encode_trailing t ≡ some r
    → encode_trailing (c ∷ t) ≡ some (c ∷ r)
unfolding encode_trailing
trailing-cons c t r h e = rw h (place_kept c t r _ e)

-- That a text ends in no dot and no space.
abbrev pub IsTrimmed : Text → Type 0
IsTrimmed t = trim_end is_dot_or_space t ≡ t

hex-kept : (n : ℕ) → n < 16 → is_dot_or_space (hex_upper n) ≡ false
hex-kept n h = ground arith

nil-IsTrimmed : IsTrimmed []
unfolding trim_end
nil-IsTrimmed = refl

pub escape-IsTrimmed :
    (hi lo : ℕ) (t : Text)
    → hi < 16
    → lo < 16
    → IsTrimmed t
    → IsTrimmed (b'%' ∷ hex_upper hi ∷ hex_upper lo ∷ t)
escape-IsTrimmed hi lo t h l k =
    trim-cons b'%' _ refl
    ∙ ap (λ r. b'%' ∷ r)
        (trim-cons (hex_upper hi) _ (hex-kept hi h)
          ∙ ap (λ r. hex_upper hi ∷ r)
              (trim-cons (hex_upper lo) t (hex-kept lo l) ∙ ap (λ r. hex_upper lo ∷ r) k))

unit_right : (o : Option Text) → (o >>= λ run. some ([] ++ run)) ≡ o
unit_right none = refl
unit_right (some run) = refl

encode_run-Encodes :
    {s t : Text}
    → Encodes s t
    → trim_end is_dot_or_space t ≡ []
    → (r : Text) × (encode_run t ≡ some r) × Encodes s r × IsTrimmed r
unfolding encode_run
encode_run-Encodes end h = ([], refl, end, h)
encode_run-Encodes (plain {s} {t} c small np e) h =
    let (dot, rest) = trim-nil c t h in
    let (r, run, en, trimmed) = encode_run-Encodes e rest in
    elim (Bool-cases (c == b'.')) [
      | inl is_dot ↦ (
        b'%' ∷ b'2' ∷ b'E' ∷ r,
        ap (λ o. o >>= encode_char c) run ∙ rw is_dot refl,
        escape c 2 14 (omega arith) (omega arith) (ground arith) en,
        escape-IsTrimmed 2 14 r (omega arith) (omega arith) trimmed,
      )
      | inr other ↦ (
        b'%' ∷ b'2' ∷ b'0' ∷ r,
        ap (λ o. o >>= encode_char c) run ∙ ground arith,
        escape c 2 0 (omega arith) (omega arith) (ground arith) en,
        escape-IsTrimmed 2 0 r (omega arith) (omega arith) trimmed,
      )
    ]
encode_run-Encodes (escape b hi lo h l q e) t = cc (trim-cons b'%' _ refl, t)

-- A text of dots and spaces alone is encoded as a whole.
encode_trailing-run :
    (t : Text) → trim_end is_dot_or_space t ≡ [] → encode_trailing t ≡ encode_run t
unfolding encode_trailing encode_run
encode_trailing-run [] h = rw h (ground arith)
encode_trailing-run (c ∷ t) h = rw h (ground (arith, unit_right (encode_run (c ∷ t))))

trailing-nil : encode_trailing [] ≡ some []
unfolding encode_run trim_end
trailing-nil = encode_trailing-run [] refl

-- A character that is neither a dot nor a space stays.
trailing-kept :
    (c : ℕ) (t r : Text)
    → is_dot_or_space c ≡ false
    → encode_trailing t ≡ some r
    → encode_trailing (c ∷ t) ≡ some (c ∷ r)
trailing-kept c t r h e = trailing-cons c t r (trim-cons c t h) e

-- An escaped text is empty only for no bytes.
pub Encodes-nil : {s t : Text} → Encodes s t → (t ≡ []) ↔ (s ≡ [])
Encodes-nil end = (λ e. refl, λ e. refl)
Encodes-nil (plain c small h e) = (λ q. cc, λ q. cc)
Encodes-nil (escape b hi lo h l q e) = (λ q. cc, λ q. cc)

cons-IsTrimmed :
    (c : ℕ) (r : Text) → IsTrimmed r → (r ≡ [] → is_dot_or_space c ≡ false) → IsTrimmed (c ∷ r)
unfolding trim_end
cons-IsTrimmed c [] h k = trim-cons c [] (k refl)
cons-IsTrimmed c (d ∷ r) h k = rw h refl

last_kept :
    (c : ℕ) (t : Text) → trim_end is_dot_or_space (c ∷ t) ≢ [] → t ≡ [] → is_dot_or_space c ≡ false
unfolding trim_end
last_kept c t h e = elim (Bool-cases (is_dot_or_space c)) [
  | inl dot ↦ absurd (h (rw e (ground arith)))
  | inr other ↦ other
]

-- `encode_trailing` keeps what the text stands for.
pub encode_trailing-Encodes :
    {s t : Text}
    → Encodes s t
    → (r : Text) × (encode_trailing t ≡ some r) × Encodes s r × IsTrimmed r
encode_trailing-Encodes end = ([], trailing-nil, end, nil-IsTrimmed)
encode_trailing-Encodes (plain {s} {t} c small np e) =
    let (r, run, en, trimmed) = encode_trailing-Encodes e in
    elim (List-cases (trim_end is_dot_or_space (c ∷ t))) [
      | inl gone ↦
          let (q, ran, enc, trim) = encode_run-Encodes (plain c small np e) gone in
          (q, encode_trailing-run (c ∷ t) gone ∙ ran, enc, trim)
      | inr kept ↦ (
        c ∷ r,
        trailing-cons c t r (trim-cons_run c t kept) run,
        plain c small np en,
        cons-IsTrimmed c r trimmed
            (λ q. last_kept c t kept ((Encodes-nil e).1 ((Encodes-nil en).0 q))),
      )
    ]
encode_trailing-Encodes (escape {s} {t} b hi lo h l q e) =
    let (r, run, en, trimmed) = encode_trailing-Encodes e in
    (
      b'%' ∷ hex_upper hi ∷ hex_upper lo ∷ r,
      trailing-kept b'%' _ _ refl (
          trailing-kept (hex_upper hi) _ _ (hex-kept hi h)
            (trailing-kept (hex_upper lo) t r (hex-kept lo l) run)),
      escape b hi lo h l q en,
      escape-IsTrimmed hi lo r h l trimmed,
    )
