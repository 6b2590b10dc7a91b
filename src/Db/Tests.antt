-- ===== src/Db/Tests.antt =====
-- The theorems of the metadata store at a database with one bucket and two objects.
use cubby.Base.{
  ◌<◌, ◌≡◌, ◌⊎◌, refl, inl, true, false, ◌&&◌, none, some, [], ◌∷◌, Text, codes, starts_with,
  text_ltb, text_eq, length, All, arith, if◌then◌else◌, any,
}
use cubby.Listing.{ListParams, ListPage, list_page}
use cubby.Listing.Successor.{IsStr}
use cubby.Listing.Items.{IsBounded}
use cubby.Listing.Paging.{IsPage}
use cubby.Db.Table.{key_ltb, Sorted}
use cubby.Db.{
  Db, ObjectRow, missing, not_empty, deleted, open_empty, object_key, bucket_exists, drop_bucket,
  try_delete_bucket, get_object, delete_objects, get_multipart, all_parts, complete_multipart,
  list_objects_page,
}
use cubby.Db.Laws.{get_object-delete_objects, try_delete_bucket-cases, complete_multipart-reads}
use cubby.Db.Seek.{key_of, listed_rows, list_page-list_objects_page}

abbrev object : Text → ObjectRow
object key = record {
  bucket = codes "b";
  key = key;
  size = 3;
  etag = codes "e";
  content_type = none;
  last_modified = 0;
  metadata = codes "{}";
}

abbrev two_objects : Db
two_objects = record open_empty {
  buckets = record { name = codes "b"; created_at = 0 } ∷ [];
  objects = object (codes "k") ∷ object (codes "l") ∷ [];
}

sorted : Sorted object_key two_objects.objects
unfolding key_ltb text_ltb text_eq
sorted = ((refl, tt), (tt, tt))

strs : All (λ r. IsStr r.key) two_objects.objects
strs = (((omega arith, inl (omega arith)), tt), (((omega arith, inl (omega arith)), tt), tt))

get_object-delete_objects_example :
    get_object
      (codes "b")
      (codes "l")
      (delete_objects (codes "b") (codes "k" ∷ codes "m" ∷ []) two_objects).1
    ≡ (if text_eq (codes "b") (codes "b")
          && any (λ key. text_eq key (codes "l")) (codes "k" ∷ codes "m" ∷ [])
        then none
        else get_object (codes "b") (codes "l") two_objects)
get_object-delete_objects_example =
    get_object-delete_objects (codes "b") (codes "k" ∷ codes "m" ∷ []) (codes "b") (codes "l")
      two_objects

try_delete_bucket-cases_example :
    ((try_delete_bucket (codes "b") two_objects ≡ (missing, two_objects))
      × (bucket_exists (codes "b") two_objects ≡ false))
    ⊎ (((try_delete_bucket (codes "b") two_objects ≡ (not_empty, two_objects))
          × (bucket_exists (codes "b") two_objects ≡ true)
          × ((row : ObjectRow) × (get_object (codes "b") row.key two_objects ≡ some row)))
        ⊎ ((try_delete_bucket (codes "b") two_objects
              ≡ (deleted, drop_bucket (codes "b") two_objects))
            × (bucket_exists (codes "b") two_objects ≡ true)
            × (bucket_exists (codes "b") (drop_bucket (codes "b") two_objects) ≡ false)
            × ((key : Text) → get_object (codes "b") key two_objects ≡ none)))
try_delete_bucket-cases_example = try_delete_bucket-cases (codes "b") two_objects

complete_multipart-reads_example :
    let after = complete_multipart (codes "u") (object (codes "m")) two_objects in
    (get_object (codes "b") (codes "m") after ≡ some (object (codes "m")))
    × ((b k : Text)
        → (text_eq (codes "b") b && text_eq (codes "m") k) ≡ false
        → get_object b k after ≡ get_object b k two_objects)
    × ((id : Text)
        → get_multipart id after
          ≡ (if text_eq (codes "u") id then none else get_multipart id two_objects))
    × ((id : Text)
        → all_parts id after ≡ (if text_eq (codes "u") id then [] else all_parts id two_objects))
complete_multipart-reads_example =
    complete_multipart-reads (codes "u") (object (codes "m")) two_objects sorted

abbrev all_keys : ListParams
all_keys = record {
  prefix = [];
  delimiter = none;
  start_from = none;
  skip_cp_le = none;
  max_keys = 1;
}

no_delimiter : IsBounded key_of all_keys
no_delimiter d h = cc h

two_rows : length (listed_rows (codes "b") [] two_objects) < 4
unfolding starts_with text_eq
two_rows = omega arith

list_page-list_objects_page_example :
    (page : ListPage ObjectRow) × (list_page key_of all_keys
        (list_objects_page (codes "b") [] two_objects)
        4
      ≡ some page)
    × IsPage key_of (listed_rows (codes "b") [] two_objects) all_keys none page
list_page-list_objects_page_example =
    list_page-list_objects_page (codes "b") two_objects all_keys 4 sorted strs tt no_delimiter refl
      (omega arith) two_rows
