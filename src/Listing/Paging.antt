-- ===== src/Listing/Paging.antt =====
-- `list_page` over a sorted table: its pages are cut from the items of the specification, and a
-- client that follows the cursors sees each item once.
use cubby.Base.{
  ℕ, ◌+◌, ◌-◌, ◌<◌, ◌≡◌, refl, sym, ap, ◌∙◌, inl, true, false, Option, none, some, List, [], arith,
  Text, ltb, ◌==◌, All, length, take, drop, unwrap_or, All-filter,
}
use cubby.Listing.{ListParams, ListPage, LoopState, first_state, scan, list_page}
use cubby.Listing.Successor.{IsStr}
use cubby.Listing.Seek.{
  Ascending, rows_from, table_fetch, finish, length-rows_from, rows_from-unwrap,
  rows_from-Ascending,
}
use cubby.Listing.Resume.{low}
use cubby.Listing.Batches.{ahead_of, ahead_of-Resumes, batches}
use cubby.Listing.Items.{
  Item, rows_of, groups_of, items, walk_items, walk_items-collapse, IsListed, IsBounded,
}
use cubby.Listing.Pages.{Shows, scan-Shows}

module _ {ℓ} {T : Type ℓ} (key_of : T → Text) (rows : List T) where
  -- The table that a listing runs over: its keys are text and ascend.
  pub record IsTable : Type 0 where
    pub strs : All (λ row. IsStr (key_of row)) rows
    pub ascending : Ascending key_of rows

  -- The engine, with its batches, re-seeks and lookahead, returns the page of one walk over the
  -- rows from the cursor on, for a page of at least one item; one round more than there are rows
  -- is enough for it to return.
  pub list_page-eq-walk :
      (params : ListParams) (fuel : ℕ)
      → IsTable
      → 0 < params.max_keys
      → length rows < fuel
      → list_page key_of params (table_fetch key_of rows) fuel
        ≡ some (
            finish
              (scan key_of params (rows_from key_of params.start_from rows) (first_state params)))
  unfolding list_page
  list_page-eq-walk params fuel table some_room enough =
      let w : LoopState T = first_state params in
      let start = rows_from-unwrap key_of params.start_from rows in
      let not_zero : (params.max_keys == 0) ≡ false = ground arith in
      rw (not_zero, start)
        (batches key_of params rows fuel w table.strs table.ascending
          (omega (arith, length-rows_from key_of (low w) rows)))

  module _ (params : ListParams) where
    -- The items from a cursor on, by the specification.
    abbrev pub items_from : Option Text → List (Item T)
    items_from from = items key_of params (rows_from key_of from rows)

    -- A page as the specification cuts it from the items.
    pub record IsPage (from : Option Text) (page : ListPage T) : Type ℓ where
      pub contents : page.contents ≡ rows_of (take params.max_keys (items_from from))
      pub groups : page.common_prefixes ≡ groups_of (take params.max_keys (items_from from))
      pub truncated : page.is_truncated ≡ ltb params.max_keys (length (items_from from))

    -- Where the items behind a page begin.
    abbrev pub Resumption : Option Text → ListPage T → Type ℓ
    Resumption from page =
        (c : Text) × (page.next_cursor ≡ some c)
        × (items_from (some c) ≡ drop params.max_keys (items_from from))

    module _ (table : IsTable) (listed : All (IsListed key_of params) rows)
        (bounded : IsBounded key_of params) (v2 : params.skip_cp_le ≡ none) where
      walk-eq-items :
          (from : Option Text)
          → walk_items key_of params none (rows_from key_of from rows) ≡ items_from from
      walk-eq-items from = rw (rows_from-unwrap key_of from rows) (
          walk_items-collapse key_of params bounded none none _ (All-filter _ _ rows listed)
            (rows_from-Ascending key_of (unwrap_or from []) rows table.ascending)
            (inl (refl, refl)))

      first-Shows : Shows key_of params rows (first_state params) (items_from params.start_from) (
          finish
            (scan key_of params (rows_from key_of params.start_from rows) (first_state params)))
      first-Shows =
          let w : LoopState T = first_state params in
          rw (← walk-eq-items params.start_from, rows_from-unwrap key_of params.start_from rows)
            (scan-Shows key_of params rows bounded v2 (ahead_of key_of params rows w)
              (All-filter _ _ rows listed) (rows_from-Ascending key_of (low w) rows table.ascending)
              w (ahead_of-Resumes key_of params rows w) (omega arith))

      pub walk-IsPage : IsPage params.start_from (
          finish
            (scan key_of params (rows_from key_of params.start_from rows) (first_state params)))
      walk-IsPage =
          let all : params.max_keys - (0 + 0) ≡ params.max_keys = omega arith in
          record {
            contents = rw all at first-Shows.contents;
            groups = rw all at first-Shows.groups;
            truncated = rw all at first-Shows.truncated;
          }

      pub walk-Resumption :
          (finish (
              scan key_of params
                (rows_from key_of params.start_from rows)
                (first_state params))).is_truncated
            ≡ true
          → Resumption params.start_from (
              finish
                (scan key_of params (rows_from key_of params.start_from rows) (first_state params)))
      walk-Resumption h =
          let all : params.max_keys - (0 + 0) ≡ params.max_keys = omega arith in
          let (c, at, rest) = first-Shows.resumes h in
          (
            c,
            at,
            sym (walk-eq-items (some c))
                ∙ rest
                ∙ ap (λ n. drop n (items_from params.start_from)) all,
          )

-- A page of the engine is the specification's page, for a listing without a marker: the contents
-- and the groups are the next `max_keys` items, and it is truncated exactly if there are more.
-- It needs room for an item, fuel for a round more than there are rows, and a delimiter that has
-- a successor.
pub list_page-IsPage {ℓ} :
    {T : Type ℓ} (key_of : T → Text) (rows : List T) (params : ListParams) (fuel : ℕ)
    → IsTable key_of rows
    → All (IsListed key_of params) rows
    → IsBounded key_of params
    → params.skip_cp_le ≡ none
    → 0 < params.max_keys
    → length rows < fuel
    → (page : ListPage T) × (list_page key_of params (table_fetch key_of rows) fuel ≡ some page)
      × IsPage key_of rows params params.start_from page
list_page-IsPage key_of rows params fuel table listed bounded v2 some_room enough = (
  finish (scan key_of params (rows_from key_of params.start_from rows) (first_state params)),
  list_page-eq-walk key_of rows params fuel table some_room enough,
  walk-IsPage key_of rows params table listed bounded v2,
)

-- The cursor of a truncated page of a listing without a marker is there, and a listing that starts from
-- it has exactly the items that the page left: none twice, none lost. The rows are in the order of their
-- keys, the keys are texts of scalar values under the prefix, a delimiter has a successor, a page may
-- hold an item, and the listing has a round of fuel more than there are rows.
pub list_page-Resumption {ℓ} :
    {T : Type ℓ} (key_of : T → Text) (rows : List T) (params : ListParams) (fuel : ℕ)
    (page : ListPage T)
    → IsTable key_of rows
    → All (IsListed key_of params) rows
    → IsBounded key_of params
    → params.skip_cp_le ≡ none
    → 0 < params.max_keys
    → length rows < fuel
    → list_page key_of params (table_fetch key_of rows) fuel ≡ some page
    → page.is_truncated ≡ true
    → Resumption key_of rows params params.start_from page
list_page-Resumption key_of rows params fuel page table listed bounded v2 some_room enough h more =
    let ended = list_page-eq-walk key_of rows params fuel table some_room enough in
    let same : finish
          (scan key_of params (rows_from key_of params.start_from rows) (first_state params))
        ≡ page =
      cc (ended, h) in
    rw same at (walk-Resumption key_of rows params table listed bounded v2 (rw same more))
