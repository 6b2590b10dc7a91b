-- ===== src/Store/Listings/Markers.antt =====
-- ListObjects, which pages by a marker: it always answers, and nothing that it lists comes before.
use cubby.Base.{
  ℕ, ◌+◌, ◌≤◌, ◌≡◌, refl, true, ◌&&◌, Option, none, some, List, [], ◌∷◌, arith, Text, text_eq,
  starts_with, unwrap_or, length, All, All-filter,
}
use cubby.Listing.{ListPage, list_page}
use cubby.Listing.Successor.{IsStr}
use cubby.Listing.Seek.{rows_from, table_fetch}
use cubby.Listing.Paging.{IsTable}
use cubby.Listing.Bounds.{Behind, list_page-ends, after_marker}
use cubby.Listing.Tokens.{Base64}
use cubby.Db.{ObjectRow, object_key, bucket_exists, list_objects_page}
use cubby.Db.Table.{Sorted}
use cubby.Db.Seek.{listed_rows, list_objects_page-seeks, listed_rows-Ascending}
use cubby.Store.{ok, Setup, World, ◌>>=◌, resolve_max_keys}
use cubby.Store.Listings.{
  ListObjectsInput, key_of, params_of, run_listing, marker_start, v1_output, list_objects_handler,
}
use cubby.Store.Listings.Follow.{filtered_le}

from_marker :
    (marker : Option Text) (rows : List ObjectRow)
    → All (λ row. Behind marker row.key) (rows_from key_of (marker_start marker) rows)
from_marker none [] = tt
from_marker none (row ∷ rows) = (tt, from_marker none rows)
from_marker (some m) rows = after_marker key_of m rows

answers :
    (setup : Setup) (base64 : Base64) (access_key : Text) (input : ListObjectsInput)
    (w : World setup) (n : ℕ) (page : ListPage ObjectRow)
    → w.db_faults ≡ []
    → resolve_max_keys input.max_keys ≡ ok n
    → bucket_exists input.bucket w.db ≡ true
    → list_page key_of
        (params_of
          (unwrap_or input.prefix [])
          input.delimiter
          (marker_start input.marker)
          input.marker
          n)
        (list_objects_page input.bucket (unwrap_or input.prefix []) w.db)
        (length w.db.objects + 1)
      ≡ some page
    → list_objects_handler setup base64 access_key input w
      ≡ (ok (v1_output setup base64 access_key input n page), w)
unfolding list_objects_handler run_listing ◌>>=◌
answers setup base64 access_key input w n page calm limit there ended =
    rw (calm, limit, there, ended) refl

-- ListObjects always answers, with a marker or without one: a page of at most as many keys and common
-- prefixes as the request allows, each of them strictly behind the marker, so that a group that was
-- listed already is not listed again; the state is as before. The bucket is there, the database does not
-- fail, and its table is in order with keys that are strings, as the prefix is.
pub list_objects_handler-answers :
    (setup : Setup) (base64 : Base64) (access_key : Text) (input : ListObjectsInput)
    (w : World setup) (n : ℕ)
    → w.db_faults ≡ []
    → resolve_max_keys input.max_keys ≡ ok n
    → bucket_exists input.bucket w.db ≡ true
    → Sorted object_key w.db.objects
    → All (λ r. IsStr r.key) w.db.objects
    → IsStr (unwrap_or input.prefix [])
    → (page : ListPage ObjectRow) × (list_objects_handler setup base64 access_key input w
        ≡ (ok (v1_output setup base64 access_key input n page), w))
      × (length page.contents + length page.common_prefixes ≤ n)
      × All (λ row. Behind input.marker row.key) page.contents
      × All (Behind input.marker) page.common_prefixes
list_objects_handler-answers setup base64 access_key input w n calm limit there sorted strs
      prefix_str =
    let prefix : Text = unwrap_or input.prefix [] in
    let rows = listed_rows input.bucket prefix w.db in
    let params = params_of prefix input.delimiter (marker_start input.marker) input.marker n in
    let table : IsTable key_of rows = record {
      strs = All-filter (λ r. IsStr r.key) _ w.db.objects strs;
      ascending = listed_rows-Ascending input.bucket prefix w.db.objects sorted;
    } in
    let fewer =
      filtered_le (λ r. text_eq r.bucket input.bucket && starts_with r.key prefix) w.db.objects in
    let (page, ended, size, keys, groups) =
      list_page-ends key_of params rows (length w.db.objects + 1) table (omega (arith, fewer))
        (from_marker input.marker rows) in
    let seeks : list_objects_page input.bucket prefix w.db ≡ table_fetch key_of rows =
      λ i from count.
        list_objects_page-seeks input.bucket prefix w.db from count prefix_str strs i in
    (
      page,
      answers setup base64 access_key input w n page calm limit there (rw seeks ended),
      size,
      keys,
      groups,
    )
