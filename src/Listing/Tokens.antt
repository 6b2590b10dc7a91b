-- ===== src/Listing/Tokens.antt =====
-- src/listing.rs: the continuation tokens, which are base64 of the cursor's bytes, and the encoding of
-- keys for `encoding-type=url`. `String::from_utf8` is written out.
use cubby.Base.{
  ℕ, zero, suc, ◌+◌, ◌-◌, ◌*◌, ◌/◌, ◌%◌, ◌≤◌, ◌<◌, ◌≡◌, refl, ap, ap₂, ◌∙◌, inl, inr, Bool-cases,
  All-append, Bool, not, ◌&&◌, ◌||◌, Option, none, some, [], ◌∷◌, ◌++◌, arith, Text, leb, ltb, ◌==◌,
  if◌then◌else◌, length, length-append, All,
}
use cubby.Utf8.{as_bytes, encode_char}
use cubby.Keypath.{PercentEncoding, ◌>>=◌}
use cubby.Listing.Successor.{IsScalar, IsStr}

abbrev is_continuation : ℕ → Bool
is_continuation b = leb 0x80 b && ltb b 0xC0

abbrev with_rest : Bool → ℕ → Text → Option (ℕ × Text)
with_rest valid c rest = if valid then some (c, rest) else none

-- The sequences of two, three and four bytes, which are neither longer than they need to be nor of a
-- surrogate.
abbrev two_bytes : ℕ → Text → Option (ℕ × Text)
two_bytes b0 [] = none
two_bytes b0 (b1 ∷ rest) = with_rest (is_continuation b1) ((b0 - 0xC0) * 64 + (b1 - 0x80)) rest

abbrev three_bytes : ℕ → Text → Option (ℕ × Text)
three_bytes b0 [] = none
three_bytes b0 (b1 ∷ []) = none
three_bytes b0 (b1 ∷ b2 ∷ rest) =
    let c = (b0 - 0xE0) * 4096 + (b1 - 0x80) * 64 + (b2 - 0x80) in
    with_rest
      (is_continuation b1 && is_continuation b2 && leb 0x800 c && (ltb c 0xD800 || leb 0xE000 c)) c
      rest

abbrev four_bytes : ℕ → Text → Option (ℕ × Text)
four_bytes b0 [] = none
four_bytes b0 (b1 ∷ []) = none
four_bytes b0 (b1 ∷ b2 ∷ []) = none
four_bytes b0 (b1 ∷ b2 ∷ b3 ∷ rest) =
    let c = (b0 - 0xF0) * 262144 + (b1 - 0x80) * 4096 + (b2 - 0x80) * 64 + (b3 - 0x80) in
    with_rest
      (is_continuation b1
        && is_continuation b2
        && is_continuation b3
        && leb 0x10000 c
        && ltb c 0x110000)
      c rest

-- The first scalar of the bytes, and the bytes behind it.
unfoldable pub decode_char : Text → Option (ℕ × Text)
decode_char [] = none
decode_char (b0 ∷ rest) =
    if ltb b0 0x80
    then some (b0, rest)
    else if leb 0xC2 b0 && ltb b0 0xE0
    then two_bytes b0 rest
    else if leb 0xE0 b0 && ltb b0 0xF0
    then three_bytes b0 rest
    else if leb 0xF0 b0 && ltb b0 0xF5
    then four_bytes b0 rest
    else none

-- A byte of fuel for every byte.
unfoldable pub decode_chars : ℕ → Text → Option Text
unfolding decode_char
decode_chars fuel [] = some []
decode_chars zero (b ∷ bytes) = none
decode_chars (suc fuel) (b ∷ bytes) =
    decode_char (b ∷ bytes) >>= λ (c, rest). decode_chars fuel rest >>= λ s. some (c ∷ s)

unfoldable pub from_utf8 : Text → Option Text
unfolding decode_chars
from_utf8 bytes = decode_chars (length bytes) bytes

-- The crate base64 with its URL-safe alphabet and no padding: a decoder undoes the encoder.
pub record Base64 : Type 0 where
  pub encode : Text → Text
  pub decode : Text → Option Text
  pub decode-encode : (bytes : Text) → decode (encode bytes) ≡ some bytes

module _ (base64 : Base64) where
  unfoldable pub encode_token : Text → Text
  unfolding as_bytes
  encode_token cursor = base64.encode (as_bytes cursor)

  unfoldable pub decode_token : Text → Option Text
  unfolding from_utf8
  decode_token token = base64.decode token >>= from_utf8

decode_char-encode_char :
    (c : ℕ) (rest : Text) → IsScalar c → decode_char (encode_char c ++ rest) ≡ some (c, rest)
unfolding decode_char encode_char
decode_char-encode_char c rest (below, scalar) = ground arith

decode_chars-step :
    (fuel : ℕ) (bytes rest s : Text) (c : ℕ)
    → decode_char bytes ≡ some (c, rest)
    → decode_chars fuel rest ≡ some s
    → decode_chars (suc fuel) bytes ≡ some (c ∷ s)
unfolding decode_chars decode_char
decode_chars-step fuel [] rest s c h later = cc h
decode_chars-step fuel (b ∷ bytes) rest s c h later = rw (h, later) refl

encode_char-length : (c : ℕ) → 1 ≤ length (encode_char c)
unfolding encode_char
encode_char-length c = ground arith

-- Enough fuel decodes what was encoded.
decode_chars-as_bytes :
    (fuel : ℕ) (s : Text)
    → IsStr s
    → length (as_bytes s) ≤ fuel
    → decode_chars fuel (as_bytes s) ≡ some s
unfolding decode_chars as_bytes
decode_chars-as_bytes zero [] str h = refl
decode_chars-as_bytes (suc fuel) [] str h = refl
decode_chars-as_bytes zero (c ∷ s) (scalar, str) h =
    absurd (omega (arith, h, length-append {0} (encode_char c) (as_bytes s), encode_char-length c))
decode_chars-as_bytes (suc fuel) (c ∷ s) (scalar, str) h =
    let enough : length (as_bytes s) ≤ fuel =
      omega (arith, h, length-append {0} (encode_char c) (as_bytes s), encode_char-length c) in
    decode_chars-step fuel (encode_char c ++ as_bytes s) (as_bytes s) s c
      (decode_char-encode_char c (as_bytes s) scalar) (decode_chars-as_bytes fuel s str enough)

pub from_utf8-as_bytes : (s : Text) → IsStr s → from_utf8 (as_bytes s) ≡ some s
unfolding from_utf8
from_utf8-as_bytes s str = decode_chars-as_bytes (length (as_bytes s)) s str (omega arith)

-- A continuation token decodes to the cursor that it was made of, for every cursor that is a string.
pub decode_token-encode_token :
    (base64 : Base64) (cursor : Text)
    → IsStr cursor
    → decode_token base64 (encode_token base64 cursor) ≡ some cursor
unfolding encode_token decode_token
decode_token-encode_token base64 cursor str =
    rw (base64.decode-encode (as_bytes cursor)) (from_utf8-as_bytes cursor str)

-- `SET`: what is neither alphanumeric nor one of `-`, `_`, `.`, `~` and `/`.
unfoldable pub is_unsafe : ℕ → Bool
is_unsafe b = not (
    (leb b'0' b && leb b b'9')
    || (leb b'A' b && leb b b'Z')
    || (leb b'a' b && leb b b'z')
    || b == b'-'
    || b == b'_'
    || b == b'.'
    || b == b'~'
    || b == b'/')

module _ (pe : PercentEncoding) where
  unfoldable pub url_encode : Text → Text
  unfolding as_bytes is_unsafe
  url_encode s = pe.percent_encode (as_bytes s) is_unsafe

  decode-encode :
      (s : Text) → All (λ b. b < 256) s → pe.percent_decode (pe.percent_encode s is_unsafe) ≡ s
  unfolding is_unsafe
  decode-encode [] h = rw pe.encode-nil pe.decode-nil
  decode-encode (b ∷ s) (small, h) = elim (Bool-cases (is_unsafe b || leb 128 b)) [
    | inl escaped ↦
        let q : b / 16 * 16 + b % 16 ≡ b = omega arith in
        rw (pe.encode-escaped is_unsafe b s small escaped) (
          pe.decode-escape (b / 16) (b % 16) _ (omega arith) (omega arith)
          ∙ ap₂ (λ x r. x ∷ r) q (decode-encode s h))
    | inr kept ↦
        rw (pe.encode-kept is_unsafe b s (ground arith) (ground arith))
          (pe.decode-plain b _ (λ e. cc (rw e at kept)) ∙ ap (λ r. b ∷ r) (decode-encode s h))
  ]

encode_char-small : (c : ℕ) → c < 0x110000 → All (λ b. b < 256) (encode_char c)
unfolding encode_char
encode_char-small c h = ground arith

pub as_bytes-small : (s : Text) → IsStr s → All (λ b. b < 256) (as_bytes s)
unfolding as_bytes
as_bytes-small [] str = tt
as_bytes-small (c ∷ s) ((below, _), str) =
    All-append (λ b. b < 256) (encode_char c) (as_bytes s) (encode_char-small c below)
      (as_bytes-small s str)

-- What a client gets that undoes the percent-encoding of a key in a listing with `encoding-type=url`:
-- exactly the bytes of the key.
pub percent_decode-url_encode :
    (pe : PercentEncoding) (key : Text)
    → IsStr key
    → pe.percent_decode (url_encode pe key) ≡ as_bytes key
unfolding url_encode
percent_decode-url_encode pe key str = decode-encode pe (as_bytes key) (as_bytes-small key str)
