-- ===== src/Store/Listings/Follow.antt =====
-- A client that lists a bucket by ListObjectsV2, each page with the token of the page before.
use mathlib.Core.List.{map-append}
use cubby.Base.{
  ℕ, zero, suc, ◌+◌, ◌<◌, ◌≤◌, ◌≡◌, refl, sym, ap, ap₂, ◌∙◌, inl, inr, Bool, true, false, ◌&&◌,
  Option, none, some, List, [], ◌∷◌, ◌++◌, arith, Text, map, text_eq, starts_with, if◌then◌else◌,
  filter, unwrap_or, length, Bool-cases, All, All-filter, All-append,
}
use cubby.Listing.{ListParams, ListPage, list_page}
use cubby.Listing.Successor.{IsStr}
use cubby.Listing.Seek.{table_fetch}
use cubby.Listing.Items.{rows_of, groups_of, IsListed, IsBounded}
use cubby.Listing.Paging.{IsTable, items_from, list_page-eq-walk, list_page-Resumption}
use cubby.Listing.Follow.{start_at, follow, with_rest, ◌>>=◌ as bind, follow_complete}
use cubby.Listing.Cursors.{list_page-PageCursor}
use cubby.Listing.Tokens.{Base64, encode_token, decode_token-encode_token}
use cubby.Db.{ObjectRow, object_key, bucket_exists, list_objects_page}
use cubby.Db.Table.{Sorted}
use cubby.Db.Seek.{listed_rows, list_objects_page-seeks, listed_rows-Ascending, rows-IsListed}
use cubby.Store.{S3Result, ok, err, panicked, Setup, World, ◌>>=◌, resolve_max_keys}
use cubby.Store.Listings.{
  Object, ListObjectsV2Input, ListObjectsV2Output, key_of, object_from_row, non_empty, params_of,
  key_encoder, owner, run_listing, start_of, marker_start, v2_output, list_objects_v2_handler,
}

given : {A : Type 0} (l : List A) → unwrap_or (non_empty l) [] ≡ l
given [] = refl
given (x ∷ l) = refl

pub filtered_le :
    (p : ObjectRow → Bool) (rows : List ObjectRow) → length (filter p rows) ≤ length rows
filtered_le p [] = omega arith
filtered_le p (row ∷ rows) = ground (arith, filtered_le p rows)

-- What is listed so far, and what the later pages list.
abbrev pub onto :
    List Object → List Text → Option (List Object × List Text) → Option (List Object × List Text)
onto contents groups none = none
onto contents groups (some (more, later)) = some (contents ++ more, groups ++ later)

abbrev pub with_later :
    ListObjectsV2Output
    → (Option Text → Option (List Object × List Text))
    → Option (List Object × List Text)
with_later out later =
    let contents = unwrap_or out.contents [] in
    let groups = unwrap_or out.common_prefixes [] in
    if out.is_truncated
    then onto contents groups (later out.next_continuation_token)
    else some (contents, groups)

marker_start-IsStr :
    (o : Option Text) → IsStr (unwrap_or o []) → IsStr (unwrap_or (marker_start o) [])
marker_start-IsStr none h = tt
marker_start-IsStr (some m) h = All-append _ m (0 ∷ []) h ((omega arith, inl (omega arith)), tt)

module _ (setup : Setup) (base64 : Base64) (access_key : Text) where
  -- A request that carries a token.
  abbrev pub with_token : ListObjectsV2Input → Option Text → ListObjectsV2Input
  with_token input token = record input { continuation_token = token }

  abbrev pub collect :
      S3Result ListObjectsV2Output
      → (Option Text → Option (List Object × List Text))
      → Option (List Object × List Text)
  collect (ok out) later = with_later out later
  collect (err e) later = none
  collect panicked later = none

  -- All that the pages list, of at most so many; `none` if that is too few or a page fails.
  pub follow_tokens :
      ℕ → ListObjectsV2Input → World setup → Option Text → Option (List Object × List Text)
  follow_tokens zero input w token = none
  follow_tokens (suc pages) input w token =
      let answer = list_objects_v2_handler setup base64 access_key (with_token input token) w in
      collect answer.0 (follow_tokens pages input answer.1)

  answers :
      (input : ListObjectsV2Input) (w : World setup) (n : ℕ) (from : Option Text)
      (page : ListPage ObjectRow)
      → w.db_faults ≡ []
      → resolve_max_keys input.max_keys ≡ ok n
      → bucket_exists input.bucket w.db ≡ true
      → start_of setup base64 access_key input.continuation_token input.start_after ≡ ok from
      → list_page key_of
          (params_of (unwrap_or input.prefix []) input.delimiter from none n)
          (list_objects_page input.bucket (unwrap_or input.prefix []) w.db)
          (length w.db.objects + 1)
        ≡ some page
      → list_objects_v2_handler setup base64 access_key input w
        ≡ (ok (v2_output setup base64 access_key input n page), w)
  unfolding list_objects_v2_handler run_listing ◌>>=◌
  answers input w n from page calm limit there start ended =
      rw (limit, calm, there, start, ended) refl

  -- What the pages give together, listed for the client.
  abbrev pub shown : ListObjectsV2Input → List ObjectRow × List Text → List Object × List Text
  shown input (rows, groups) =
      let encode = key_encoder setup base64 access_key input.encoding_type in
      (
        map
            (object_from_row (owner setup base64 access_key (unwrap_or input.fetch_owner false))
              encode)
            rows,
        map encode groups,
      )

  onto-shown :
      (input : ListObjectsV2Input) (rows : List ObjectRow) (groups : List Text)
      (rest : Option (List ObjectRow × List Text)) (later : Option (List Object × List Text))
      (r : List ObjectRow × List Text)
      → ((more : List ObjectRow × List Text) → rest ≡ some more → later ≡ some (shown input more))
      → bind rest (λ more. some (rows ++ more.0, groups ++ more.1)) ≡ some r
      → onto (shown input (rows, groups)).0 (shown input (rows, groups)).1 later
        ≡ some (shown input r)
  onto-shown input rows groups none later r ih h = cc
  onto-shown input rows groups (some (more, behind)) later r ih h =
      let encode = key_encoder setup base64 access_key input.encoding_type in
      let object =
        object_from_row (owner setup base64 access_key (unwrap_or input.fetch_owner false))
          encode in
      let same : (rows ++ more, groups ++ behind) ≡ r = cc h in
      rw (ih (more, behind) refl) (
        ap some (
          ap₂ (λ x y. (x, y)) (sym (map-append object rows more))
            (sym (map-append encode groups behind)))
        ∙ ap (λ x. some (shown input x)) same)

  module _ (input : ListObjectsV2Input) (w : World setup) (n : ℕ) (calm : w.db_faults ≡ [])
      (limit : resolve_max_keys input.max_keys ≡ ok n)
      (there : bucket_exists input.bucket w.db ≡ true) (sorted : Sorted object_key w.db.objects)
      (strs : All (λ r. IsStr r.key) w.db.objects) (prefix_str : IsStr (unwrap_or input.prefix []))
      (bounded : IsBounded key_of
        (params_of (unwrap_or input.prefix []) input.delimiter none none n))
      (room : 0 < n) where
    abbrev pub prefix : Text
    prefix = unwrap_or input.prefix []

    abbrev pub params : ListParams
    params = params_of prefix input.delimiter none none n

    abbrev pub rows : List ObjectRow
    rows = listed_rows input.bucket prefix w.db

    abbrev pub fuel : ℕ
    fuel = length w.db.objects + 1

    pub enough : length rows < fuel
    enough = omega (
      arith,
      filtered_le (λ r. text_eq r.bucket input.bucket && starts_with r.key prefix) w.db.objects,
    )

    pub table : IsTable key_of rows
    table = record {
      strs = All-filter (λ r. IsStr r.key) _ w.db.objects strs;
      ascending = listed_rows-Ascending input.bucket prefix w.db.objects sorted;
    }

    pub listed : All (IsListed key_of params) rows
    listed = rows-IsListed input.bucket params w.db.objects strs

    seeks : list_objects_page input.bucket prefix w.db ≡ table_fetch key_of rows
    seeks i from count =
        list_objects_page-seeks input.bucket prefix w.db from count prefix_str strs i

    -- One page of the client is one page of the engine.
    page-answer :
        (token from : Option Text) (page : ListPage ObjectRow)
        → start_of setup base64 access_key token input.start_after ≡ ok from
        → list_page key_of (start_at params from) (table_fetch key_of rows) fuel ≡ some page
        → list_objects_v2_handler setup base64 access_key (with_token input token) w
          ≡ (ok (v2_output setup base64 access_key (with_token input token) n page), w)
    page-answer token from page start ended =
        answers (with_token input token) w n from page calm limit there start (rw seeks ended)

    with_later-follow :
        (pages : ℕ) (token from : Option Text) (page : ListPage ObjectRow)
        (r : List ObjectRow × List Text)
        → IsStr (unwrap_or from [])
        → list_page key_of (start_at params from) (table_fetch key_of rows) fuel ≡ some page
        → with_rest key_of rows params page (follow key_of rows params pages fuel) ≡ some r
        → ((c : Text) (more : List ObjectRow × List Text)
            → IsStr c
            → follow key_of rows params pages fuel (some c) ≡ some more
            → follow_tokens pages input w (some (encode_token base64 c)) ≡ some (shown input more))
        → with_later
            (v2_output setup base64 access_key (with_token input token) n page)
            (follow_tokens pages input w)
          ≡ some (shown input r)
    with_later-follow pages token from page r str ended h ih = elim (Bool-cases page.is_truncated) [
      | inr last ↦
          let same : (page.contents, page.common_prefixes) ≡ r = cc (rw last at h) in
          rw
            (
              last,
              given (shown input (page.contents, page.common_prefixes)).0,
              given (shown input (page.contents, page.common_prefixes)).1,
            )
            (ap (λ x. some (shown input x)) same)
      | inl more ↦
          let (c, at, _) =
            list_page-Resumption key_of rows (start_at params from) fuel page table listed bounded
              refl room enough ended more in
          let c_str =
            list_page-PageCursor key_of (start_at params from) rows fuel page table str room enough
              ended c at in
          rw
            (
              more,
              at,
              given (shown input (page.contents, page.common_prefixes)).0,
              given (shown input (page.contents, page.common_prefixes)).1,
            )
            (onto-shown input page.contents page.common_prefixes
              (follow key_of rows params pages fuel (some c))
              (follow_tokens pages input w (some (encode_token base64 c))) r (λ m e. ih c m c_str e)
              (rw (more, at) at h))
    ]

    pub tokens-follow :
        (pages : ℕ) (token from : Option Text) (r : List ObjectRow × List Text)
        → start_of setup base64 access_key token input.start_after ≡ ok from
        → IsStr (unwrap_or from [])
        → follow key_of rows params pages fuel from ≡ some r
        → follow_tokens pages input w token ≡ some (shown input r)
    unfolding follow_tokens follow
    tokens-follow zero token from r start str h = cc h
    tokens-follow (suc pages) token from r start str h =
        let ended = list_page-eq-walk key_of rows (start_at params from) fuel table room enough in
        rw (page-answer token from _ start ended) (
          with_later-follow pages token from _ r str ended (rw ended at h) (λ c more c_str e.
            tokens-follow pages (some (encode_token base64 c)) (some c) more
              (rw (decode_token-encode_token base64 c c_str) refl) c_str e))

-- A client that follows the continuation tokens of ListObjectsV2, from `start_after` on if that is
-- given, gets every object of the bucket under the prefix and every common prefix once and in order, as
-- the specification of the listing has them, in at most a page more than there are items: each page is
-- answered, whatever its size from 1 to 1000. The bucket is there, the database does not fail, its
-- table is in order with keys that are strings, as the prefix and `start_after` are, and the delimiter
-- has a successor.
pub follow_tokens_complete :
    (setup : Setup) (base64 : Base64) (access_key : Text) (input : ListObjectsV2Input)
    (w : World setup) (n pages : ℕ)
    → let prefix = unwrap_or input.prefix [] in
      let params = params_of prefix input.delimiter none none n in
      let items =
        items_from key_of
          (listed_rows input.bucket prefix w.db)
          params
          (marker_start input.start_after) in
      w.db_faults ≡ []
      → resolve_max_keys input.max_keys ≡ ok n
      → bucket_exists input.bucket w.db ≡ true
      → Sorted object_key w.db.objects
      → All (λ r. IsStr r.key) w.db.objects
      → IsStr prefix
      → IsStr (unwrap_or input.start_after [])
      → IsBounded key_of params
      → 0 < n
      → length items < pages
      → follow_tokens setup base64 access_key pages input w none
        ≡ some (shown setup base64 access_key input (rows_of items, groups_of items))
follow_tokens_complete setup base64 access_key input w n pages calm limit there sorted strs
      prefix_str start_str bounded room few =
    tokens-follow setup base64 access_key input w n calm limit there sorted strs prefix_str bounded
      room pages none (marker_start input.start_after) _ refl
      (marker_start-IsStr input.start_after start_str)
      (follow_complete key_of (listed_rows input.bucket (unwrap_or input.prefix []) w.db)
        (params_of (unwrap_or input.prefix []) input.delimiter none none n) pages
        (length w.db.objects + 1) (marker_start input.start_after)
        (table setup base64 access_key input w n calm limit there sorted strs prefix_str bounded
          room)
        (listed setup base64 access_key input w n calm limit there sorted strs prefix_str bounded
          room)
        bounded refl room
        (enough setup base64 access_key input w n calm limit there sorted strs prefix_str bounded
          room)
        few)
