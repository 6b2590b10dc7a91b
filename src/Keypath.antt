-- ===== src/Keypath.antt =====
-- src/keypath.rs: an S3 key becomes a file path below its bucket, and a path becomes a key again.
-- Texts here are bytes. `none` is a panic of the source.
pub mod Encoding
pub mod Segment
pub mod Pieces
pub mod RoundTrip
pub mod Tests
use cubby.Base.{
  ℕ, zero, suc, ◌+◌, ◌-◌, ◌*◌, ◌/◌, ◌%◌, ◌≤◌, ◌<◌, ◌≡◌, ◌≢◌, Bool, true, false, not, ◌&&◌, ◌||◌,
  Option, none, some, List, [], ◌∷◌, ◌++◌, map, Text, codes, text_eq, starts_with, ltb, leb, ◌==◌,
  if◌then◌else◌, length, drop, All,
}
use cubby.Base.Str.{split, join, trim_end, to_ascii_uppercase}

abbrev pub hex_upper : ℕ → ℕ
hex_upper n = if ltb n 10 then b'0' + n else b'A' + (n - 10)

-- The crate percent-encoding: what it documents of `percent_encode`, `percent_decode_str` and
-- `decode_utf8_lossy`. The last is `String::from_utf8_lossy`, as `OsStr::to_string_lossy` is on Unix.
pub record PercentEncoding : Type 1 where
  pub percent_encode : Text → (ℕ → Bool) → Text
  pub percent_decode : Text → Text
  pub utf8_lossy : Text → Text
  pub IsUtf8 : Text → Type 0
  pub encode-nil : (set : ℕ → Bool) → percent_encode [] set ≡ []
  pub encode-kept :
      (set : ℕ → Bool) (b : ℕ) (s : Text)
      → b < 128
      → set b ≡ false
      → percent_encode (b ∷ s) set ≡ b ∷ percent_encode s set
  pub encode-escaped :
      (set : ℕ → Bool) (b : ℕ) (s : Text)
      → b < 256
      → (set b || leb 128 b) ≡ true
      → percent_encode (b ∷ s) set
        ≡ b'%' ∷ hex_upper (b / 16) ∷ hex_upper (b % 16) ∷ percent_encode s set
  pub decode-nil : percent_decode [] ≡ []
  pub decode-plain : (b : ℕ) (s : Text) → b ≢ b'%' → percent_decode (b ∷ s) ≡ b ∷ percent_decode s
  pub decode-escape :
      (hi lo : ℕ) (s : Text)
      → hi < 16
      → lo < 16
      → percent_decode (b'%' ∷ hex_upper hi ∷ hex_upper lo ∷ s) ≡ (hi * 16 + lo) ∷ percent_decode s
  pub ascii-IsUtf8 : (s : Text) → All (λ b. b < 128) s → IsUtf8 s
  pub lossy-IsUtf8 : (s : Text) → IsUtf8 s → utf8_lossy s ≡ s

infixl 5 ◌>>=◌
abbrev pub ◌>>=◌ {ℓ κ} : {A : Type ℓ} {B : Type κ} → Option A → (A → Option B) → Option B
none >>= k = none
some a >>= k = k a

-- `ILLEGAL`: the control characters, and those that Windows forbids, and `%`.
unfoldable pub is_illegal : ℕ → Bool
is_illegal b =
    ltb b 32
    || b == 127
    || b == b'<'
    || b == b'>'
    || b == b':'
    || b == b'"'
    || b == b'|'
    || b == b'?'
    || b == b'*'
    || b == b'\\'
    || b == b'%'

abbrev pub is_dot_or_space : ℕ → Bool
is_dot_or_space c = c == b'.' || c == b' '

-- The `for c in s[trimmed.len()..].chars()` loop; the last arm is `unreachable!`.
abbrev pub encode_char : ℕ → Text → Option Text
encode_char c rest =
    if c == b'.'
    then some (b'%' ∷ b'2' ∷ b'E' ∷ rest)
    else if c == b' '
    then some (b'%' ∷ b'2' ∷ b'0' ∷ rest)
    else none

unfoldable pub encode_run : Text → Option Text
encode_run [] = some []
encode_run (c ∷ s) = encode_run s >>= encode_char c

unfoldable pub encode_trailing : Text → Option Text
unfolding encode_run
encode_trailing s =
    let trimmed = trim_end is_dot_or_space s in
    if length trimmed == length s
    then some s
    else encode_run (drop (length trimmed) s) >>= λ run. some (trimmed ++ run)

-- `s.split('.').next()`: what stands before the first dot.
unfoldable pub stem_of : Text → Text
stem_of [] = []
stem_of (c ∷ s) = let rest = stem_of s in if c == b'.' then [] else c ∷ rest

-- `b.len() == 4 && … && b[3].is_ascii_digit() && b[3] != b'0'`
abbrev pub is_numbered_device : Text → Bool
is_numbered_device (a ∷ b ∷ c ∷ d ∷ []) =
    (text_eq (a ∷ b ∷ c ∷ []) (codes "COM") || text_eq (a ∷ b ∷ c ∷ []) (codes "LPT"))
    && (leb b'0' d && leb d b'9')
    && not (d == b'0')
is_numbered_device other = false

unfoldable pub is_reserved_stem : Text → Bool
is_reserved_stem stem =
    let up = to_ascii_uppercase stem in
    text_eq up (codes "CON")
    || text_eq up (codes "PRN")
    || text_eq up (codes "AUX")
    || text_eq up (codes "NUL")
    || is_numbered_device up

-- `format!("%{:02X}{}", s.as_bytes()[0], &s[1..])`, out of range on an empty text.
abbrev pub escape_first : Text → Option Text
escape_first [] = none
escape_first (first ∷ s) = some (b'%' ∷ hex_upper (first / 16) ∷ hex_upper (first % 16) ∷ s)

unfoldable pub encode_reserved : Text → Option Text
unfolding stem_of is_reserved_stem
encode_reserved s = if is_reserved_stem (stem_of s) then escape_first s else some s

-- `std::path::Component`, and how a Unix path splits into components: empty pieces and `.` are
-- left out, but a `.` at the front stands.
pub data Component : Type 0 where
  root_dir cur_dir parent_dir : Component
  normal : Text → Component

abbrev pub component_of : Text → List Component → List Component
component_of piece rest =
    if text_eq piece [] || text_eq piece (codes ".")
    then rest
    else if text_eq piece (codes "..")
    then parent_dir ∷ rest
    else normal piece ∷ rest

unfoldable pub components_of : List Text → List Component
components_of [] = []
components_of (piece ∷ pieces) = component_of piece (components_of pieces)

abbrev pub leading : List Text → List Component
leading [] = []
leading (piece ∷ pieces) =
    if text_eq piece (codes ".")
    then cur_dir ∷ components_of pieces
    else components_of (piece ∷ pieces)

unfoldable pub components : Text → List Component
unfolding components_of
components path =
    if starts_with path (codes "/")
    then root_dir ∷ components_of (split b'/' path)
    else leading (split b'/' path)

-- Whether `PathBuf::push` has to add a separator: the path is not empty and does not end in one.
unfoldable pub needs_separator : Text → Bool
needs_separator [] = false
needs_separator (c ∷ []) = not (c == b'/')
needs_separator (c ∷ d ∷ path) = needs_separator (d ∷ path)

-- `PathBuf::push` on Unix: an absolute path replaces what is there.
unfoldable pub push : Text → Text → Text
unfolding needs_separator
push path piece =
    if starts_with piece (codes "/")
    then piece
    else if needs_separator path
    then path ++ (b'/' ∷ piece)
    else path ++ piece

-- `Component::Normal` only.
abbrev pub normals : List Component → List Text
normals [] = []
normals (normal piece ∷ rest) = piece ∷ normals rest
normals (root_dir ∷ rest) = normals rest
normals (cur_dir ∷ rest) = normals rest
normals (parent_dir ∷ rest) = normals rest

module _ (pe : PercentEncoding) where
  open pe use {percent_encode, percent_decode, utf8_lossy}

  unfoldable pub encode_segment : Text → Option Text
  unfolding encode_trailing encode_reserved is_illegal
  encode_segment segment = do
    encoded ← encode_trailing (percent_encode segment is_illegal)
    encode_reserved encoded

  -- The loop of `key_to_relpath` over the segments.
  unfoldable pub push_segments : Text → List Text → Option Text
  push_segments path [] = some path
  push_segments path (segment ∷ segments) = do
    encoded ← encode_segment segment
    push_segments (push path encoded) segments

  unfoldable pub key_to_relpath : Text → Option Text
  unfolding push_segments encode_segment push
  key_to_relpath key = push_segments [] (split b'/' key)

  -- `to_string_lossy` of a component, and what `percent_decode_str` makes of it.
  abbrev pub decode_piece : Text → Text
  decode_piece piece = utf8_lossy (percent_decode (utf8_lossy piece))

  unfoldable pub relpath_to_key : Text → Text
  unfolding components
  relpath_to_key rel = join (codes "/") (map decode_piece (normals (components rel)))
