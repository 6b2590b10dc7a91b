-- ===== src/Store/Listings/Tests.antt =====
-- The theorems of the listings at a bucket with `a/x`, `a/y` and `b`.
use cubby.Base.{
  ◌<◌, ◌≤◌, ◌+◌, ◌≡◌, refl, inl, true, false, none, some, [], ◌∷◌, Text, codes, length, All, arith,
  starts_with, text_eq, text_ltb,
}
use cubby.Listing.{ListPage, classify, find_from}
use cubby.Listing.Successor.{IsScalar, IsStr}
use cubby.Listing.Items.{IsBounded, rows_of, groups_of}
use cubby.Listing.Paging.{items_from}
use cubby.Listing.Bounds.{Behind}
use cubby.Listing.Tests.{slash_next}
use cubby.Listing.Tokens.{Base64}
use cubby.Db.{Db, ObjectRow, open_empty, object_key, bucket_exists}
use cubby.Db.Table.{Sorted, key_ltb, key_eq}
use cubby.Db.Seek.{listed_rows}
use cubby.Store.{World, ok}
use cubby.Store.Listings.{
  ListObjectsV2Input, ListObjectsInput, key_of, params_of, v1_output, list_objects_handler,
}
use cubby.Store.Listings.Follow.{follow_tokens, shown, follow_tokens_complete}
use cubby.Store.Listings.Markers.{list_objects_handler-answers}
use cubby.Store.Tests.{setup, empty_world}

abbrev base64 : Base64
base64 = record { encode = λ bytes. bytes; decode = some; decode-encode = λ bytes. refl }

abbrev object : Text → ObjectRow
object key = record {
  bucket = codes "b";
  key = key;
  size = 3;
  etag = codes "e";
  content_type = none;
  last_modified = 0;
  metadata = codes "{}";
}

abbrev three_objects : Db
three_objects = record open_empty {
  buckets = record { name = codes "b"; created_at = 0 } ∷ [];
  objects = object (codes "a/x") ∷ object (codes "a/y") ∷ object (codes "b") ∷ [];
}

abbrev full : World setup
full = record empty_world { db = three_objects }

abbrev input : ListObjectsV2Input
input = record {
  bucket = codes "b";
  prefix = none;
  delimiter = some (codes "/");
  max_keys = some (false, 1);
  continuation_token = none;
  start_after = none;
  fetch_owner = none;
  encoding_type = none;
}

abbrev marked : ListObjectsInput
marked = record {
  bucket = codes "b";
  prefix = none;
  delimiter = some (codes "/");
  max_keys = some (false, 1);
  marker = some (codes "a/");
  encoding_type = none;
}

there : bucket_exists (codes "b") three_objects ≡ true
unfolding bucket_exists key_eq text_eq
there = refl

sorted : Sorted object_key three_objects.objects
unfolding key_ltb text_ltb text_eq
sorted = ((refl, (refl, tt)), ((refl, tt), (tt, tt)))

IsScalar-97 : IsScalar 97
IsScalar-97 = (omega arith, inl (omega arith))

IsScalar-47 : IsScalar 47
IsScalar-47 = (omega arith, inl (omega arith))

strs : All (λ r. IsStr r.key) three_objects.objects
strs = (
  (IsScalar-97, (IsScalar-47, ((omega arith, inl (omega arith)), tt))),
  (
    (IsScalar-97, (IsScalar-47, ((omega arith, inl (omega arith)), tt))),
    (((omega arith, inl (omega arith)), tt), tt),
  ),
)

bounded : IsBounded key_of (params_of [] (some (codes "/")) none none 1)
bounded d h e = let same : codes "/" ≡ d = cc h in cc (slash_next, rw (← same) at e)

few :
    length (
      items_from key_of
        (listed_rows (codes "b") [] three_objects)
        (params_of [] (some (codes "/")) none none 1)
        none)
    < 5
unfolding classify find_from starts_with text_eq cubby.Listing.Items.collapse
few = omega arith

follow_tokens_complete_example :
    let items =
      items_from key_of
        (listed_rows (codes "b") [] three_objects)
        (params_of [] (some (codes "/")) none none 1)
        none in
    follow_tokens setup base64 (codes "me") 5 input full none
    ≡ some (shown setup base64 (codes "me") input (rows_of items, groups_of items))
follow_tokens_complete_example =
    follow_tokens_complete setup base64 (codes "me") input full 1 5 refl refl there sorted strs tt
      tt bounded (omega arith) few

list_objects_handler-answers_example :
    (page : ListPage ObjectRow) × (list_objects_handler setup base64 (codes "me") marked full
      ≡ (ok (v1_output setup base64 (codes "me") marked 1 page), full))
    × (length page.contents + length page.common_prefixes ≤ 1)
    × All (λ row. Behind (some (codes "a/")) row.key) page.contents
    × All (Behind (some (codes "a/"))) page.common_prefixes
list_objects_handler-answers_example =
    list_objects_handler-answers setup base64 (codes "me") marked full 1 refl refl there sorted strs
      tt
