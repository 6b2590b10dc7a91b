-- ===== src/Presign.antt =====
-- src/presign.rs: the presigned URL of an object. The time stamp is ASCII.
pub mod Paths
pub mod Tests
use cubby.Base.{
  ℕ, ◌+◌, ◌-◌, ◌/◌, ◌%◌, ◌≡◌, Bool, true, false, not, ◌&&◌, ◌||◌, Option, none, some, List, [], ◌∷◌,
  ◌++◌, Text, codes, text_leb, leb, ltb, ◌==◌, if◌then◌else◌, map, length, take,
}
use cubby.Base.Str.{join, lower}
use cubby.Utf8.{as_bytes}
use cubby.Keypath.{hex_upper}
use cubby.Multipart.{Digests}

-- The crates hmac and sha2, on bytes.
pub record Hashes : Type 0 where
  pub hmac : Text → Text → Text
  pub sha256 : Text → Text

pub record PresignInput : Type 0 where
  pub method : Text
  pub host : Text
  pub bucket : Text
  pub key : Text
  pub access_key : Text
  pub secret_key : Text
  pub region : Text
  pub expires_in_s : ℕ
  pub amz_date : Text

abbrev pub is_unreserved : ℕ → Bool
is_unreserved b =
    (leb b'A' b && leb b b'Z')
    || (leb b'a' b && leb b b'z')
    || (leb b'0' b && leb b b'9')
    || b == b'-'
    || b == b'_'
    || b == b'.'
    || b == b'~'

-- `for &byte in input.as_bytes()`
unfoldable pub encode_bytes : Bool → Text → Text
encode_bytes encode_slash [] = []
encode_bytes encode_slash (b ∷ s) =
    let rest = encode_bytes encode_slash s in
    if is_unreserved b
    then b ∷ rest
    else if b == b'/' && not encode_slash
    then b'/' ∷ rest
    else b'%' ∷ hex_upper (b / 16) ∷ hex_upper (b % 16) ∷ rest

unfoldable pub uri_encode : Text → Bool → Text
unfolding encode_bytes as_bytes
uri_encode input encode_slash = encode_bytes encode_slash (as_bytes input)

-- `hex`, in lower case.
unfoldable pub hex : Text → Text
hex [] = []
hex (b ∷ s) = lower (hex_upper (b / 16)) ∷ lower (hex_upper (b % 16)) ∷ hex s

-- `sort_by` on the names.
abbrev insert_param : Text × Text → List (Text × Text) → List (Text × Text)
insert_param p [] = p ∷ []
insert_param p (q ∷ params) =
    let rest = insert_param p params in if text_leb p.0 q.0 then p ∷ q ∷ params else q ∷ rest

abbrev sort_params : List (Text × Text) → List (Text × Text)
sort_params [] = []
sort_params (p ∷ params) = insert_param p (sort_params params)

module _ (hashes : Hashes) (digests : Digests) where
  open hashes use {hmac, sha256}

  abbrev pub sign : Text → Text → Text → Text → Text → Text
  sign secret date region service string_to_sign =
      let k_date = hmac (as_bytes (codes "AWS4" ++ secret)) (as_bytes date) in
      let k_region = hmac k_date (as_bytes region) in
      let k_service = hmac k_region (as_bytes service) in
      let k_signing = hmac k_service (as_bytes (codes "aws4_request")) in
      hex (hmac k_signing string_to_sign)

  abbrev hex_sha256 : Text → Text
  hex_sha256 bytes = hex (sha256 bytes)

  abbrev scope_of : PresignInput → Text → Text
  scope_of input date = date ++ codes "/" ++ input.region ++ codes "/s3/aws4_request"

  abbrev pub params_of : PresignInput → Text → List (Text × Text)
  params_of input scope =
      (codes "X-Amz-Algorithm", codes "AWS4-HMAC-SHA256")
      ∷ (codes "X-Amz-Credential", input.access_key ++ codes "/" ++ scope)
      ∷ (codes "X-Amz-Date", input.amz_date)
      ∷ (codes "X-Amz-Expires", digests.decimal input.expires_in_s)
      ∷ (codes "X-Amz-SignedHeaders", codes "host")
      ∷ []

  -- The decoded path, with its slashes kept.
  abbrev pub canonical_path : PresignInput → Text
  canonical_path input = uri_encode (b'/' ∷ input.bucket ++ b'/' ∷ input.key) false

  abbrev canonical_query : PresignInput → Text → Text
  canonical_query input scope =
      let encoded =
        map (λ (n, v). (uri_encode n true, uri_encode v true)) (params_of input scope) in
      join (codes "&") (map (λ (n, v). n ++ codes "=" ++ v) (sort_params encoded))

  abbrev canonical_request : PresignInput → Text → Text
  canonical_request input scope =
      input.method
      ++ codes "\n"
      ++ canonical_path input
      ++ codes "\n"
      ++ canonical_query input scope
      ++ codes "\nhost:"
      ++ input.host
      ++ codes "\n\nhost\nUNSIGNED-PAYLOAD"

  abbrev string_to_sign : PresignInput → Text → Text
  string_to_sign input scope =
      codes "AWS4-HMAC-SHA256\n"
      ++ input.amz_date
      ++ codes "\n"
      ++ scope
      ++ codes "\n"
      ++ hex_sha256 (as_bytes (canonical_request input scope))

  -- The query with the signature, and the URL.
  abbrev pub query_of : PresignInput → Text → Text
  query_of input date =
      let scope = scope_of input date in
      let signature =
        sign input.secret_key date input.region (codes "s3")
          (as_bytes (string_to_sign input scope)) in
      canonical_query input scope ++ codes "&X-Amz-Signature=" ++ signature

  abbrev pub url_of : PresignInput → Text → Text
  url_of input date =
      codes "http://" ++ input.host ++ canonical_path input ++ codes "?" ++ query_of input date

  -- `&input.amz_date[..8]` panics on a shorter one.
  unfoldable pub presigned_url : PresignInput → Option Text
  unfolding uri_encode hex join
  presigned_url input =
      if ltb (length input.amz_date) 8 then none else some (url_of input (take 8 input.amz_date))
