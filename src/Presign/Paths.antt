-- ===== src/Presign/Paths.antt =====
-- The path of a presigned URL is the path of the object.
use cubby.Base.{
  ℕ, ◌+◌, ◌*◌, ◌/◌, ◌%◌, ◌<◌, ◌≡◌, ◌≢◌, refl, sym, ap, ap₂, ◌∙◌, inl, inr, false, some, [], ◌∷◌,
  ◌++◌, append_assoc, Text, codes, ltb, ◌==◌, ==_sound, Bool-cases, All, All-append, arith,
  is_empty, take, length, unwrap_or,
}
use cubby.Base.Split.{Without}
use cubby.Base.Str.{trim_start}
use cubby.Utf8.{as_bytes, encode_char}
use cubby.Keypath.{PercentEncoding}
use cubby.Listing.Successor.{IsStr}
use cubby.Listing.Tokens.{from_utf8, from_utf8-as_bytes, as_bytes-small}
use cubby.Multipart.{Digests}
use cubby.Cors.Matching.{split_once-append}
use cubby.Store.CorsConfig.{RulesJson}
use cubby.Http.{HeaderRules, parse_bucket_key, pct_decode}
use cubby.Presign.{
  Hashes, PresignInput, is_unreserved, encode_bytes, uri_encode, canonical_path, presigned_url,
  query_of, url_of,
}

encode_bytes-append :
    (a b : Text) → encode_bytes false (a ++ b) ≡ encode_bytes false a ++ encode_bytes false b
unfolding encode_bytes
encode_bytes-append [] b = refl
encode_bytes-append (c ∷ a) b = ground (arith, encode_bytes-append a b)

encode_bytes-Without :
    (s : Text) → All (λ b. b < 256) s → Without b'/' s → Without b'/' (encode_bytes false s)
unfolding encode_bytes
encode_bytes-Without [] small w = tt
encode_bytes-Without (b ∷ s) (h, small) (d, w) =
    let rest = encode_bytes-Without s small w in ground arith

encode_bytes-ascii : (s : Text) → All (λ b. b < 256) s → All (λ b. b < 128) (encode_bytes false s)
unfolding encode_bytes
encode_bytes-ascii [] small = tt
encode_bytes-ascii (b ∷ s) (h, small) = let rest = encode_bytes-ascii s small in ground arith

as_bytes-ascii : (s : Text) → All (λ b. b < 128) s → as_bytes s ≡ s
unfolding as_bytes encode_char
as_bytes-ascii [] h = refl
as_bytes-ascii (c ∷ s) (small, h) = rw (as_bytes-ascii s h) (ground arith)

module _ (pe : PercentEncoding) where
  percent_decode-encode_bytes :
      (s : Text) → All (λ b. b < 256) s → pe.percent_decode (encode_bytes false s) ≡ s
  unfolding encode_bytes
  percent_decode-encode_bytes [] h = pe.decode-nil
  percent_decode-encode_bytes (b ∷ s) (small, h) =
      let rest = percent_decode-encode_bytes s h in
      elim (Bool-cases (is_unreserved b)) [
        | inl kept ↦ rw kept (pe.decode-plain b _ (λ e. cc (rw e at kept)) ∙ ap (λ r. b ∷ r) rest)
        | inr other ↦ elim (Bool-cases (b == b'/')) [
          | inl slash ↦
              rw (other, slash)
                (pe.decode-plain b'/' _ (λ e. omega (arith, e))
                  ∙ ap (λ r. b'/' ∷ r) rest
                  ∙ ap (λ x. x ∷ s) (sym (==_sound b b'/' slash)))
          | inr escaped ↦
              let q : b / 16 * 16 + b % 16 ≡ b = omega arith in
              rw (other, escaped)
                (pe.decode-escape (b / 16) (b % 16) _ (omega arith) (omega arith)
                  ∙ ap₂ (λ x r. x ∷ r) q rest)
        ]
      ]

trim_start-slash :
    (c : ℕ) (s : Text) → (c == b'/') ≡ false → trim_start (λ x. x == b'/') (b'/' ∷ c ∷ s) ≡ c ∷ s
unfolding trim_start
trim_start-slash c s h = rw h refl

encode_bytes-empty : (s : Text) → s ≢ [] → is_empty (encode_bytes false s) ≡ false
unfolding encode_bytes
encode_bytes-empty [] h = absurd (h refl)
encode_bytes-empty (b ∷ s) h = ground arith

module _ (pe : PercentEncoding) (json : RulesJson) (rules : HeaderRules) (digests : Digests) where
  pct_decode-encode_bytes :
      (t : Text)
      → IsStr t
      → pe.IsUtf8 (as_bytes t)
      → pct_decode pe json rules digests (encode_bytes false (as_bytes t)) ≡ t
  pct_decode-encode_bytes t str utf8 =
      let small = as_bytes-small t str in
      let encoded = encode_bytes false (as_bytes t) in
      let bytes : as_bytes encoded ≡ encoded =
        as_bytes-ascii encoded (encode_bytes-ascii (as_bytes t) small) in
      let decoded : pe.utf8_lossy (pe.percent_decode (as_bytes encoded)) ≡ as_bytes t =
        ap (λ x. pe.utf8_lossy (pe.percent_decode x)) bytes
        ∙ ap pe.utf8_lossy (percent_decode-encode_bytes pe (as_bytes t) small)
        ∙ pe.lossy-IsUtf8 (as_bytes t) utf8 in
      ap (λ x. unwrap_or x []) (ap from_utf8 decoded ∙ from_utf8-as_bytes t str)

  -- A path of two parts, as the router reads it.
  two_parts :
      (c : ℕ) (b k : Text)
      → (c == b'/') ≡ false
      → Without b'/' b
      → is_empty k ≡ false
      → parse_bucket_key pe json rules digests (b'/' ∷ c ∷ b ++ b'/' ∷ k) ≡ (
        some (pct_decode pe json rules digests (c ∷ b)),
        some (pct_decode pe json rules digests k),
      )
  unfolding parse_bucket_key
  two_parts c b k h w e =
      let trimmed = trim_start-slash c (b ++ b'/' ∷ k) h in
      let cut = split_once-append b'/' (c ∷ b) k (h, w) in rw (trimmed, cut, e) refl

as_bytes-append : (a b : Text) → as_bytes (a ++ b) ≡ as_bytes a ++ as_bytes b
unfolding as_bytes
as_bytes-append [] b = refl
as_bytes-append (c ∷ a) b =
    ap (λ r. encode_char c ++ r) (as_bytes-append a b)
    ∙ sym (append_assoc (encode_char c) (as_bytes a) (as_bytes b))

as_bytes-nonempty : (s : Text) → s ≢ [] → as_bytes s ≢ []
unfolding as_bytes encode_char
as_bytes-nonempty [] h e = h refl
as_bytes-nonempty (c ∷ s) h e = ground arith

no_query : (s : Text) → All (λ b. b < 256) s → Without b'?' (encode_bytes false s)
unfolding encode_bytes
no_query [] small = tt
no_query (b ∷ s) (h, small) = let rest = no_query s small in ground arith

slash_bytes : (s : Text) → as_bytes (b'/' ∷ s) ≡ b'/' ∷ as_bytes s
unfolding as_bytes encode_char
slash_bytes s = refl

canonical_path-parts :
    (hashes : Hashes) (digests : Digests) (input : PresignInput)
    → canonical_path hashes digests input
      ≡ b'/' ∷ encode_bytes false (as_bytes input.bucket)
        ++ b'/' ∷ encode_bytes false (as_bytes input.key)
unfolding uri_encode
canonical_path-parts hashes digests input =
    ap (encode_bytes false) (
      slash_bytes (input.bucket ++ b'/' ∷ input.key)
      ∙ ap (λ r. b'/' ∷ r)
          (as_bytes-append input.bucket (b'/' ∷ input.key)
            ∙ ap (λ r. as_bytes input.bucket ++ r) (slash_bytes input.key)))
    ∙ ap (λ r. b'/' ∷ r) (encode_bytes-append (as_bytes input.bucket) (b'/' ∷ as_bytes input.key))

canonical_path-no_query :
    (hashes : Hashes) (digests : Digests) (input : PresignInput)
    → IsStr input.bucket
    → IsStr input.key
    → Without b'?' (canonical_path hashes digests input)
canonical_path-no_query hashes digests input bucket_str key_str =
    rw (canonical_path-parts hashes digests input) (
      refl,
      All-append (λ c. (c == b'?') ≡ false) (encode_bytes false (as_bytes input.bucket)) _
          (no_query (as_bytes input.bucket) (as_bytes-small input.bucket bucket_str))
          (refl, no_query (as_bytes input.key) (as_bytes-small input.key key_str)),
    )

module _ (pe : PercentEncoding) (json : RulesJson) (rules : HeaderRules) (hashes : Hashes)
    (digests : Digests) where
  encoded_parts :
      (b k : Text)
      → is_empty b ≡ false
      → Without b'/' b
      → is_empty k ≡ false
      → parse_bucket_key pe json rules digests (b'/' ∷ b ++ b'/' ∷ k)
        ≡ (some (pct_decode pe json rules digests b), some (pct_decode pe json rules digests k))
  encoded_parts [] k e w f = cc
  encoded_parts (c ∷ b) k e (h, w) f = two_parts pe json rules digests c b k h w f

  parse_bucket_key-canonical_path :
      (input : PresignInput)
      → IsStr input.bucket
      → IsStr input.key
      → pe.IsUtf8 (as_bytes input.bucket)
      → pe.IsUtf8 (as_bytes input.key)
      → Without b'/' (as_bytes input.bucket)
      → input.bucket ≢ []
      → input.key ≢ []
      → parse_bucket_key pe json rules digests (canonical_path hashes digests input)
        ≡ (some input.bucket, some input.key)
  parse_bucket_key-canonical_path input bucket_str key_str bucket_utf8 key_utf8 w bucket_there
        key_there =
      ap (parse_bucket_key pe json rules digests) (canonical_path-parts hashes digests input)
      ∙ encoded_parts (encode_bytes false (as_bytes input.bucket))
          (encode_bytes false (as_bytes input.key))
          (encode_bytes-empty (as_bytes input.bucket) (as_bytes-nonempty input.bucket bucket_there))
          (encode_bytes-Without (as_bytes input.bucket) (as_bytes-small input.bucket bucket_str) w)
          (encode_bytes-empty (as_bytes input.key) (as_bytes-nonempty input.key key_there))
      ∙ ap₂ (λ b k. (some b, some k))
          (pct_decode-encode_bytes pe json rules digests input.bucket bucket_str bucket_utf8)
          (pct_decode-encode_bytes pe json rules digests input.key key_str key_utf8)

-- A request for a presigned URL is one for its object: behind the host the URL has a path without `?`,
-- and the router reads the bucket and the key of the input from it. The bucket's name and the key are
-- strings and not empty, and the bucket has no slash.
pub parse_bucket_key-presigned_url :
    (pe : PercentEncoding) (json : RulesJson) (rules : HeaderRules) (hashes : Hashes)
    (digests : Digests) (input : PresignInput) (url : Text)
    → IsStr input.bucket
    → IsStr input.key
    → pe.IsUtf8 (as_bytes input.bucket)
    → pe.IsUtf8 (as_bytes input.key)
    → Without b'/' (as_bytes input.bucket)
    → input.bucket ≢ []
    → input.key ≢ []
    → presigned_url hashes digests input ≡ some url
    → (path query : Text) × (url ≡ codes "http://" ++ input.host ++ path ++ codes "?" ++ query)
      × Without b'?' path
      × (parse_bucket_key pe json rules digests path ≡ (some input.bucket, some input.key))
unfolding presigned_url
parse_bucket_key-presigned_url pe json rules hashes digests input url bucket_str key_str bucket_utf8
      key_utf8 w bucket_there key_there h =
    elim (Bool-cases (ltb (length input.amz_date) 8)) [
      | inl short ↦ absurd (cc (rw short at h))
      | inr long ↦
          let made : url_of hashes digests input (take 8 input.amz_date) ≡ url =
            cc (rw long at h) in
          (
            canonical_path hashes digests input,
            query_of hashes digests input (take 8 input.amz_date),
            sym made,
            canonical_path-no_query hashes digests input bucket_str key_str,
            parse_bucket_key-canonical_path pe json rules hashes digests input bucket_str key_str
                bucket_utf8 key_utf8 w bucket_there key_there,
          )
    ]
