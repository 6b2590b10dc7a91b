-- ===== src/Presign/Tests.antt =====
-- The theorem of the presigned URLs at one object, with hashes that are no hashes.
use cubby.Base.{◌≡◌, refl, inl, some, ◌++◌, Text, codes, arith}
use cubby.Base.Split.{Without}
use cubby.Utf8.{as_bytes}
use cubby.Listing.Successor.{IsStr}
use cubby.Keypath.Tests.{percent_encoding}
use cubby.Multipart.Tests.{plain}
use cubby.Store.CorsConfig.Tests.{json}
use cubby.Http.{parse_bucket_key}
use cubby.Http.Tests.{any_value}
use cubby.Presign.{Hashes, PresignInput, presigned_url, url_of}
use cubby.Presign.Paths.{parse_bucket_key-presigned_url}

abbrev hashes : Hashes
hashes = record { hmac = λ key bytes. bytes; sha256 = λ bytes. bytes }

abbrev input : PresignInput
input = record {
  method = codes "GET";
  host = codes "h";
  bucket = codes "b";
  key = codes "a b";
  access_key = codes "id";
  secret_key = codes "key";
  region = codes "r";
  expires_in_s = 60;
  amz_date = codes "20260101T000000Z";
}

abbrev url : Text
url = url_of hashes plain input (codes "20260101")

made : presigned_url hashes plain input ≡ some url
unfolding presigned_url
made = refl

bucket-IsStr : IsStr (codes "b")
bucket-IsStr = ((omega arith, inl (omega arith)), tt)

key-IsStr : IsStr (codes "a b")
key-IsStr = (
  (omega arith, inl (omega arith)),
  ((omega arith, inl (omega arith)), ((omega arith, inl (omega arith)), tt)),
)

no_slash : Without b'/' (as_bytes (codes "b"))
unfolding as_bytes
no_slash = (refl, tt)

parse_bucket_key-presigned_url_example :
    (path query : Text) × (url ≡ codes "http://" ++ codes "h" ++ path ++ codes "?" ++ query)
    × Without b'?' path
    × (parse_bucket_key percent_encoding json any_value plain path
        ≡ (some (codes "b"), some (codes "a b")))
parse_bucket_key-presigned_url_example =
    parse_bucket_key-presigned_url percent_encoding json any_value hashes plain input url
      bucket-IsStr key-IsStr tt tt no_slash (λ e. cc) (λ e. cc) made
