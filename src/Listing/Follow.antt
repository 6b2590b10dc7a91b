-- ===== src/Listing/Follow.antt =====
-- A client that lists a bucket page by page, each from the cursor of the page before.
use cubby.Base.{
  ℕ, zero, suc, ◌<◌, ◌≡◌, refl, sym, ap, ap₂, ◌∙◌, inl, inr, Option, none, some, List, [], ◌∷◌,
  ◌++◌, arith, Text, ltb, if◌then◌else◌, Bool-cases, All, length, take, drop, take-append-drop,
  take_all, length-drop,
}
use cubby.Listing.{ListParams, ListPage, list_page}
use cubby.Listing.Seek.{table_fetch, rows_from}
use mathlib.Core.Path.{fun_ext}
use cubby.Listing.Items.{
  Item, key_item, group_item, rows_of, groups_of, group_of, place, collapse, IsListed, IsBounded,
}
use cubby.Listing.Paging.{IsTable, items_from, list_page-IsPage, list_page-Resumption}

-- A request that starts from a cursor.
abbrev pub start_at : ListParams → Option Text → ListParams
start_at params from = record params { start_from = from }

infixl 5 ◌>>=◌
abbrev pub ◌>>=◌ {ℓ κ} : {A : Type ℓ} {B : Type κ} → Option A → (A → Option B) → Option B
none >>= k = none
some a >>= k = k a

module _ {ℓ} {T : Type ℓ} (key_of : T → Text) (rows : List T) (params : ListParams) where
  abbrev pub both : List T × List Text → List T × List Text → List T × List Text
  both (a, b) (c, d) = (a ++ c, b ++ d)

  -- The rest of the pages, if this one is truncated.
  abbrev pub with_rest :
      ListPage T → (Option Text → Option (List T × List Text)) → Option (List T × List Text)
  with_rest page rest =
      if page.is_truncated
      then (rest page.next_cursor >>= λ more.
          some (both (page.contents, page.common_prefixes) more))
      else some (page.contents, page.common_prefixes)

  -- All contents and all groups of at most so many pages.
  unfoldable pub follow : ℕ → ℕ → Option Text → Option (List T × List Text)
  follow zero fuel from = none
  follow (suc pages) fuel from =
      list_page key_of (start_at params from) (table_fetch key_of rows) fuel >>= λ page.
      with_rest page (follow pages fuel)

rows_of-append {ℓ} :
    {T : Type ℓ} (xs ys : List (Item T)) → rows_of (xs ++ ys) ≡ rows_of xs ++ rows_of ys
rows_of-append [] ys = refl
rows_of-append (key_item row ∷ xs) ys = ap (λ r. row ∷ r) (rows_of-append xs ys)
rows_of-append (group_item cp ∷ xs) ys = rows_of-append xs ys

groups_of-append {ℓ} :
    {T : Type ℓ} (xs ys : List (Item T)) → groups_of (xs ++ ys) ≡ groups_of xs ++ groups_of ys
groups_of-append [] ys = refl
groups_of-append (key_item row ∷ xs) ys = groups_of-append xs ys
groups_of-append (group_item cp ∷ xs) ys = ap (λ r. cp ∷ r) (groups_of-append xs ys)

-- The items do not depend on where a page starts.
collapse-start_at {ℓ} :
    {T : Type ℓ} (key_of : T → Text) (params : ListParams) (from last : Option Text) (rows : List T)
    → collapse key_of (start_at params from) last rows ≡ collapse key_of params last rows
unfolding collapse
collapse-start_at key_of params from last [] = refl
collapse-start_at key_of params from last (row ∷ rows) =
    ap (place key_of params last row (group_of key_of params row))
      (fun_ext (λ o. collapse-start_at key_of params from o rows))

-- What a page and the items behind it hold together.
rows_of-split {ℓ} :
    {T : Type ℓ} (n : ℕ) (its : List (Item T))
    → rows_of (take n its) ++ rows_of (drop n its) ≡ rows_of its
rows_of-split n its =
    sym (rows_of-append (take n its) (drop n its)) ∙ ap rows_of (take-append-drop n its)

groups_of-split {ℓ} :
    {T : Type ℓ} (n : ℕ) (its : List (Item T))
    → groups_of (take n its) ++ groups_of (drop n its) ≡ groups_of its
groups_of-split n its =
    sym (groups_of-append (take n its) (drop n its)) ∙ ap groups_of (take-append-drop n its)

-- A client that follows the cursors of a listing without a marker gets every key and every group
-- of the specification once and in order, in at most a page more than there are items. The rows are in
-- the order of their keys, the keys are texts of scalar values under the prefix, a delimiter has a
-- successor, a page may hold an item, and a page has a round of fuel more than there are rows.
pub follow_complete {ℓ} :
    {T : Type ℓ} (key_of : T → Text) (rows : List T) (params : ListParams) (pages fuel : ℕ)
    (from : Option Text)
    → IsTable key_of rows
    → All (IsListed key_of params) rows
    → IsBounded key_of params
    → params.skip_cp_le ≡ none
    → 0 < params.max_keys
    → length rows < fuel
    → length (items_from key_of rows params from) < pages
    → follow key_of rows params pages fuel from
      ≡ some (
        rows_of (items_from key_of rows params from),
        groups_of (items_from key_of rows params from),
      )
unfolding follow
follow_complete key_of rows params zero fuel from table listed bounded v2 room enough few =
    elim few [ ]
follow_complete key_of rows params (suc pages) fuel from table listed bounded v2 room enough few =
    let now = start_at params from in
    let its = items_from key_of rows params from in
    let n = params.max_keys in
    let same =
      λ (o : Option Text). collapse-start_at key_of params from none (rows_from key_of o rows) in
    let (page, ended, is_page) =
      list_page-IsPage key_of rows now fuel table listed bounded v2 room enough in
    let contents : page.contents ≡ rows_of (take n its) = rw (← same from) is_page.contents in
    let groups : page.common_prefixes ≡ groups_of (take n its) = rw (← same from) is_page.groups in
    let truncated : page.is_truncated ≡ ltb n (length its) = rw (← same from) is_page.truncated in
    elim (Bool-cases page.is_truncated) [
      | inl more ↦
          let (c, at, behind) =
            list_page-Resumption key_of rows now fuel page table listed bounded v2 room enough ended
              more in
          let rest : items_from key_of rows params (some c) ≡ drop n its =
            sym (same (some c)) ∙ behind ∙ ap (drop n) (same from) in
          let some_left : n < length its = ground arith in
          let fewer : length (items_from key_of rows params (some c)) < pages =
            rw rest (omega (arith, length-drop n its)) in
          let ih =
            follow_complete key_of rows params pages fuel (some c) table listed bounded v2 room
              enough fewer in
          rw (ended, more, at, ih, contents, groups, rest)
            (ap some (ap₂ (λ a b. (a, b)) (rows_of-split n its) (groups_of-split n its)))
      | inr last ↦
          let whole : take n its ≡ its = take_all n its (ground arith) in
          rw (ended, last, contents, groups, whole) refl
    ]
