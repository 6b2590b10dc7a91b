-- ===== src/Store/Listings.antt =====
-- src/store.rs: ListBuckets, ListObjectsV2 and ListObjects, which run the listing engine on the database.
pub mod Follow
pub mod Markers
pub mod Tests
use cubby.Base.{
  ℕ, ◌+◌, ◌≡◌, Bool, true, false, Option, none, some, List, [], ◌∷◌, ◌++◌, Text, codes, map,
  text_eq, is_empty, is_some, if◌then◌else◌, unwrap_or, length,
}
use cubby.Keypath.{PercentEncoding}
use cubby.Listing.{ListParams, ListPage, list_page, successor}
use cubby.Listing.Tokens.{Base64, encode_token, decode_token, url_encode}
use cubby.Db.{ObjectRow, BucketRow, bucket_exists, list_buckets, list_objects_page}
use cubby.Store.{
  no_such_bucket, invalid_argument, S3Result, ok, err, panicked, Setup, Action, ◌>>=◌ as bind,
  return, db_read, ensure, resolve_max_keys,
}

-- The owner is the access key, under both of its names.
pub record Object : Type 0 where
  pub key : Text
  pub e_tag : Text
  pub size : ℕ
  pub last_modified : ℕ
  pub owner : Option Text

-- A negative `max_keys` is given by its sign and its size.
pub record ListObjectsV2Input : Type 0 where
  pub bucket : Text
  pub prefix : Option Text
  pub delimiter : Option Text
  pub max_keys : Option (Bool × ℕ)
  pub continuation_token : Option Text
  pub start_after : Option Text
  pub fetch_owner : Option Bool
  pub encoding_type : Option Text

pub record ListObjectsV2Output : Type 0 where
  pub name : Text
  pub prefix : Text
  pub delimiter : Option Text
  pub max_keys : ℕ
  pub key_count : ℕ
  pub is_truncated : Bool
  pub contents : Option (List Object)
  pub common_prefixes : Option (List Text)
  pub continuation_token : Option Text
  pub next_continuation_token : Option Text
  pub start_after : Option Text
  pub encoding_type : Option Text

pub record ListObjectsInput : Type 0 where
  pub bucket : Text
  pub prefix : Option Text
  pub delimiter : Option Text
  pub max_keys : Option (Bool × ℕ)
  pub marker : Option Text
  pub encoding_type : Option Text

pub record ListObjectsOutput : Type 0 where
  pub name : Text
  pub prefix : Text
  pub marker : Option Text
  pub delimiter : Option Text
  pub max_keys : ℕ
  pub is_truncated : Bool
  pub contents : Option (List Object)
  pub common_prefixes : Option (List Text)
  pub next_marker : Option Text
  pub encoding_type : Option Text

abbrev pub key_of : ObjectRow → Text
key_of row = row.key

abbrev pub object_from_row : Option Text → (Text → Text) → ObjectRow → Object
object_from_row owner encode row = record {
  key = encode row.key;
  e_tag = row.etag;
  size = row.size;
  last_modified = row.last_modified;
  owner = owner;
}

abbrev pub mapped : (Text → Text) → Option Text → Option Text
mapped f none = none
mapped f (some t) = some (f t)

-- `(!l.is_empty()).then_some(l)`
abbrev pub non_empty : {A : Type 0} → List A → Option (List A)
non_empty l = if is_empty l then none else some l

-- `format!("{s}\0")`
abbrev pub just_after : Text → Text
just_after s = s ++ 0 ∷ []

-- A marker gives the start, and which groups were listed already.
abbrev pub marker_start : Option Text → Option Text
marker_start none = none
marker_start (some m) = some (just_after m)

-- `NextMarker` is answered only where there is a delimiter.
abbrev pub next_marker_of : Option Text → (Text → Text) → Option Text → Option Text
next_marker_of none encode marker = none
next_marker_of (some delimiter) encode marker = mapped encode marker

abbrev pub params_of : Text → Option Text → Option Text → Option Text → ℕ → ListParams
params_of prefix delimiter start_from skip_cp_le max_keys = record {
  prefix = prefix;
  delimiter = delimiter;
  start_from = start_from;
  skip_cp_le = skip_cp_le;
  max_keys = max_keys;
}

abbrev pub is_url : Option Text → Bool
is_url none = false
is_url (some encoding) = text_eq encoding (codes "url")

module _ (setup : Setup) (base64 : Base64) (access_key : Text) where
  open setup use {pe}

  infixl 5 ◌>>=◌ ◌>>◌
  abbrev ◌>>=◌ : {A B : Type 0} → Action setup A → (A → Action setup B) → Action setup B
  m >>= k = bind setup m k

  abbrev ◌>>◌ : {A B : Type 0} → Action setup A → Action setup B → Action setup B
  m >> k = bind setup m (λ _. k)

  abbrev pub key_encoder : Option Text → Text → Text
  key_encoder encoding_type s = if is_url encoding_type then url_encode pe s else s

  abbrev pub owner : Bool → Option Text
  owner include = if include then some access_key else none

  abbrev pub lifted : {A : Type 0} → S3Result A → Action setup A
  lifted r w = (r, w)

  -- The loop has fuel for a round more than there are rows; `none` is a loop that did not end.
  abbrev pub ended : {A : Type 0} → Option A → Action setup A
  ended none w = (panicked, w)
  ended (some a) w = (ok a, w)

  unfoldable pub run_listing :
      Text → Text → Option Text → Option Text → Option Text → ℕ → Action setup (ListPage ObjectRow)
  unfolding list_objects_page
  run_listing bucket prefix delimiter start_from skip_cp_le max_keys = do
    page ← db_read setup (λ db.
        list_page key_of (params_of prefix delimiter start_from skip_cp_le max_keys)
          (list_objects_page bucket prefix db) (length db.objects + 1))
    ended page

  -- A continuation token wins over `start_after`.
  abbrev pub decoded : Option Text → S3Result (Option Text)
  decoded none = err invalid_argument
  decoded (some cursor) = ok (some cursor)

  abbrev pub start_of : Option Text → Option Text → S3Result (Option Text)
  start_of (some token) start_after = decoded (decode_token base64 token)
  start_of none start_after = ok (marker_start start_after)

  abbrev pub v2_output : ListObjectsV2Input → ℕ → ListPage ObjectRow → ListObjectsV2Output
  v2_output input max_keys page =
      let encode = key_encoder input.encoding_type in
      record {
        name = input.bucket;
        prefix = encode (unwrap_or input.prefix []);
        delimiter = mapped encode input.delimiter;
        max_keys = max_keys;
        key_count = length page.contents + length page.common_prefixes;
        is_truncated = page.is_truncated;
        contents = non_empty (
            map (object_from_row (owner (unwrap_or input.fetch_owner false)) encode) page.contents);
        common_prefixes = non_empty (map encode page.common_prefixes);
        continuation_token = input.continuation_token;
        next_continuation_token = mapped (encode_token base64) page.next_cursor;
        start_after = mapped encode input.start_after;
        encoding_type = input.encoding_type;
      }

  unfoldable pub list_objects_v2_handler : ListObjectsV2Input → Action setup ListObjectsV2Output
  unfolding run_listing decode_token encode_token url_encode bucket_exists
  list_objects_v2_handler input = do
    max_keys ← lifted (resolve_max_keys input.max_keys)
    exists ← db_read setup (bucket_exists input.bucket)
    ensure setup no_such_bucket exists
    start_from ← lifted (start_of input.continuation_token input.start_after)
    page ←
        run_listing input.bucket (unwrap_or input.prefix []) input.delimiter start_from none
          max_keys
    return setup (v2_output input max_keys page)

  abbrev pub v1_output : ListObjectsInput → ℕ → ListPage ObjectRow → ListObjectsOutput
  v1_output input max_keys page =
      let encode = key_encoder input.encoding_type in
      record {
        name = input.bucket;
        prefix = encode (unwrap_or input.prefix []);
        marker = mapped encode input.marker;
        delimiter = mapped encode input.delimiter;
        max_keys = max_keys;
        is_truncated = page.is_truncated;
        contents = non_empty (map (object_from_row (owner true) encode) page.contents);
        common_prefixes = non_empty (map encode page.common_prefixes);
        next_marker = next_marker_of input.delimiter encode page.next_marker;
        encoding_type = input.encoding_type;
      }

  unfoldable pub list_objects_handler : ListObjectsInput → Action setup ListObjectsOutput
  unfolding run_listing url_encode bucket_exists
  list_objects_handler input = do
    max_keys ← lifted (resolve_max_keys input.max_keys)
    exists ← db_read setup (bucket_exists input.bucket)
    ensure setup no_such_bucket exists
    page ←
        run_listing input.bucket (unwrap_or input.prefix []) input.delimiter
          (marker_start input.marker) input.marker max_keys
    return setup (v1_output input max_keys page)

  -- The names and the creation dates.
  unfoldable pub list_buckets_handler : Action setup (List (Text × ℕ))
  list_buckets_handler = do
    rows ← db_read setup list_buckets
    return setup (map (λ row. (row.name, row.created_at)) rows)
