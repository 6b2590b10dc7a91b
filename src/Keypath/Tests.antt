-- ===== src/Keypath/Tests.antt =====
-- The crate percent-encoding written out, and the theorems of the keys at one key.
use cubby.Base.{
  ℕ, ◌+◌, ◌-◌, ◌*◌, ◌/◌, ◌%◌, ◌<◌, ◌≡◌, refl, ap₂, Bool, ◌||◌, some, List, [], ◌∷◌, map, arith,
  Text, codes, ltb, leb, ◌==◌, if◌then◌else◌, All,
}
use cubby.Base.Str.{split, join}
use cubby.Base.Split.{nonempty}
use cubby.Keypath.{
  PercentEncoding, hex_upper, normal, components, encode_segment, key_to_relpath, relpath_to_key,
}
use cubby.Keypath.Segment.{IsPortable, encode_segment-IsPortable}
use cubby.Keypath.RoundTrip.{
  key_to_relpath-IsConfined, relpath_to_key-key_to_relpath, relpath_to_key-inverse,
}

abbrev pub encode_bytes : Text → (ℕ → Bool) → Text
encode_bytes [] set = []
encode_bytes (b ∷ s) set =
    let rest = encode_bytes s set in
    if set b || leb 128 b then b'%' ∷ hex_upper (b / 16) ∷ hex_upper (b % 16) ∷ rest else b ∷ rest

abbrev pub hex_value : ℕ → ℕ
hex_value c = if ltb c 58 then c - 48 else c - 55

-- `%` with its two digits, held back until both are read.
pub data Pending : Type 0 where
  nothing : Pending
  percent : Pending
  digit : ℕ → Pending

abbrev pub decode_from : Pending → Text → Text
decode_from p [] = []
decode_from nothing (c ∷ s) =
    let plain = decode_from nothing s in
    let escaped = decode_from percent s in if c == b'%' then escaped else c ∷ plain
decode_from percent (c ∷ s) = decode_from (digit c) s
decode_from (digit d) (c ∷ s) = (hex_value d * 16 + hex_value c) ∷ decode_from nothing s

pub hex_value-hex_upper : (n : ℕ) → n < 16 → hex_value (hex_upper n) ≡ n
hex_value-hex_upper n h = ground arith

abbrev pub percent_encoding : PercentEncoding
percent_encoding = record {
  percent_encode = encode_bytes;
  percent_decode = decode_from nothing;
  utf8_lossy = λ s. s;
  IsUtf8 = λ s. Unit;
  encode-nil = λ set. refl;
  encode-kept = λ set b s small kept. ground arith;
  encode-escaped = λ set b s small escaped. ground arith;
  decode-nil = refl;
  decode-plain = λ b s other. ground arith;
  decode-escape = λ hi lo s h l.
      ap₂ (λ x y. (x * 16 + y) ∷ decode_from nothing s) (hex_value-hex_upper hi h)
        (hex_value-hex_upper lo l);
  ascii-IsUtf8 = λ s small. tt;
  lossy-IsUtf8 = λ s u. refl;
}

abbrev key : Text
key = codes "../a:b//CON. "

key-bytes : All (λ b. b < 256) key
key-bytes = ground arith

encode_segment-IsPortable_example :
    (encoded : Text) × (encode_segment percent_encoding (codes "CON. ") ≡ some encoded)
    × (percent_encoding.percent_decode encoded ≡ codes "CON. ")
    × IsPortable encoded
encode_segment-IsPortable_example =
    encode_segment-IsPortable percent_encoding (codes "CON. ") (ground arith)

key_to_relpath-IsConfined_example :
    (path : Text) × (names : List Text) × (key_to_relpath percent_encoding key ≡ some path)
    × (components path ≡ map normal names)
    × All IsPortable names
    × (map percent_encoding.percent_decode names ≡ nonempty (split b'/' key))
key_to_relpath-IsConfined_example = key_to_relpath-IsConfined percent_encoding key key-bytes

relpath_to_key-key_to_relpath_example :
    (path : Text) × (key_to_relpath percent_encoding key ≡ some path)
    × (relpath_to_key percent_encoding path ≡ join (codes "/") (nonempty (split b'/' key)))
unfolding split
relpath_to_key-key_to_relpath_example =
    relpath_to_key-key_to_relpath percent_encoding key key-bytes (tt, (tt, (tt, (tt, tt))))

relpath_to_key-inverse_example :
    (path : Text) × (key_to_relpath percent_encoding (codes "../a:b/..") ≡ some path)
    × (relpath_to_key percent_encoding path ≡ codes "../a:b/..")
unfolding split
relpath_to_key-inverse_example =
    relpath_to_key-inverse percent_encoding (codes "../a:b/..") (ground arith) (tt, (tt, (tt, tt)))
      refl
