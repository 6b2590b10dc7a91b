-- ===== src/Utf8.antt =====
-- The bytes of a Rust `str` (`str::as_bytes`), and that their order is the order of the scalars.
use cubby.Base.{
  ℕ, ◌+◌, ◌/◌, ◌%◌, ◌<◌, ◌≡◌, refl, ◌∙◌, inl, inr, true, false, [], ◌∷◌, ◌++◌, arith, Text,
  text_ltb, ltb, ◌==◌, ==_sound, if◌then◌else◌, Bool-cases, All,
}

unfoldable pub encode_char : ℕ → Text
encode_char c =
    if ltb c 0x80
    then c ∷ []
    else if ltb c 0x800
    then (0xC0 + c / 64) ∷ (0x80 + c % 64) ∷ []
    else if ltb c 0x10000
    then (0xE0 + c / 4096) ∷ (0x80 + c / 64 % 64) ∷ (0x80 + c % 64) ∷ []
    else (0xF0 + c / 262144) ∷ (0x80 + c / 4096 % 64) ∷ (0x80 + c / 64 % 64) ∷ (0x80 + c % 64) ∷ []

unfoldable pub as_bytes : Text → Text
unfolding encode_char
as_bytes [] = []
as_bytes (c ∷ s) = encode_char c ++ as_bytes s

ltb-same_front : (p s t : Text) → text_ltb (p ++ s) (p ++ t) ≡ text_ltb s t
unfolding text_ltb
ltb-same_front [] s t = refl
ltb-same_front (c ∷ p) s t = ground (arith, ltb-same_front p s t)

ltb-encode_char :
    (c d : ℕ) (s t : Text)
    → ltb c d ≡ true
    → d < 0x110000
    → text_ltb (encode_char c ++ s) (encode_char d ++ t) ≡ true
unfolding text_ltb encode_char
ltb-encode_char c d s t h b = ground arith

gtb-encode_char :
    (c d : ℕ) (s t : Text)
    → ltb d c ≡ true
    → c < 0x110000
    → text_ltb (encode_char c ++ s) (encode_char d ++ t) ≡ false
unfolding text_ltb encode_char
gtb-encode_char c d s t h b = ground arith

-- UTF-8 keeps the order: comparing bytes is comparing scalars.
pub ltb-as_bytes :
    (s t : Text)
    → All (λ c. c < 0x110000) s
    → All (λ c. c < 0x110000) t
    → text_ltb (as_bytes s) (as_bytes t) ≡ text_ltb s t
unfolding text_ltb as_bytes
ltb-as_bytes s [] hs ht = refl
ltb-as_bytes [] (d ∷ t) hs ht = ground arith
ltb-as_bytes (c ∷ s) (d ∷ t) (hc, hs) (hd, ht) = elim (Bool-cases (c == d)) [
  | inl same ↦
      let e : c ≡ d = ==_sound c d same in
      rw e (
        ltb-same_front (encode_char d) (as_bytes s) (as_bytes t)
        ∙ ground (arith, ltb-as_bytes s t hs ht))
  | inr other ↦ elim (Bool-cases (ltb c d)) [
    | inl below ↦ ltb-encode_char c d (as_bytes s) (as_bytes t) below (omega arith) ∙ ground arith
    | inr above ↦
        gtb-encode_char c d (as_bytes s) (as_bytes t) (ground arith) (omega arith) ∙ ground arith
  ]
]
