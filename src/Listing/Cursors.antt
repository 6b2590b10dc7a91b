-- ===== src/Listing/Cursors.antt =====
-- The cursor of a page is a string, so that it survives the encoding in a token.
use cubby.Base.{
  ℕ, ◌+◌, ◌<◌, ◌≡◌, refl, inl, inr, Bool, true, false, Option, none, some, List, [], ◌∷◌, arith,
  Text, ◌==◌, Bool-cases, Option-cases, All, All-append, All-take, All-filter, length, drop, take,
  unwrap_or,
}
use cubby.Listing.{
  ListParams, ListPage, Group, content, rolled, find_from, group_at, classify, LoopState, Flow,
  ◌>>=◌, return, break_outer, next, emitted, fresh, is_skipped, is_covered, first_state, push_group,
  handle_group, handle_row, scan, successor, list_page,
}
use cubby.Listing.Successor.{IsStr, successor-IsStr}
use cubby.Listing.Seek.{rows_from, table_fetch, finish}
use cubby.Listing.Resume.{low}
use cubby.Listing.Paging.{IsTable, list_page-eq-walk}

rolled_at-IsStr :
    (key prefix delim : Text) (found : Option ℕ) (cp : Text)
    → group_at key prefix delim found ≡ rolled cp
    → IsStr key
    → IsStr cp
rolled_at-IsStr key prefix delim none cp h str = cc
rolled_at-IsStr key prefix delim (some idx) cp h str =
    let same : take (length prefix + idx + length delim) key ≡ cp = cc h in
    rw (← same) (All-take _ (length prefix + idx + length delim) key str)

rolled-IsStr :
    (key prefix : Text) (delimiter : Option Text) (cp : Text)
    → classify key prefix delimiter ≡ rolled cp
    → IsStr key
    → IsStr cp
unfolding classify
rolled-IsStr key prefix none cp h str = cc
rolled-IsStr key prefix (some []) cp h str = cc
rolled-IsStr key prefix (some (d ∷ delim)) cp h str =
    rolled_at-IsStr key prefix (d ∷ delim) (find_from (drop (length prefix) key) (d ∷ delim) 0) cp h
      str

module _ {ℓ} {T : Type ℓ} (key_of : T → Text) (params : ListParams) where
  abbrev pub PageCursor : ListPage T → Type 0
  PageCursor page = (c : Text) → page.next_cursor ≡ some c → IsStr c

  abbrev FlowCursor : Flow T → Type 0
  FlowCursor (return page) = PageCursor page
  FlowCursor (break_outer w) = Unit
  FlowCursor (next w) = IsStr (low w)

  finish-PageCursor : (m : Flow T) → FlowCursor m → PageCursor (finish m)
  finish-PageCursor (return page) h c e = h c e
  finish-PageCursor (break_outer w) h c e = cc
  finish-PageCursor (next w) h c e = cc

  push_group-FlowCursor :
      (covered : Bool) (cp after : Text) (w : LoopState T)
      → IsStr after
      → IsStr (low (push_group covered cp after w))
  push_group-FlowCursor true cp after w h = h
  push_group-FlowCursor false cp after w h = h

  handle_group-FlowCursor :
      (row : T) (w : LoopState T) (g : Group)
      → IsStr (key_of row)
      → classify (key_of row) params.prefix params.delimiter ≡ g
      → FlowCursor (handle_group key_of params row w g)
  handle_group-FlowCursor row w content str h =
      All-append _ (key_of row) (0 ∷ []) str ((omega arith, inl (omega arith)), tt)
  handle_group-FlowCursor row w (rolled cp) str h = elim (Option-cases (successor cp)) [
    | inl e ↦ rw (e, handle_group) tt
    | inr (after, e) ↦
        let cp_str = rolled-IsStr (key_of row) params.prefix params.delimiter cp h str in
        rw (e, handle_group)
          (push_group-FlowCursor (is_covered params.skip_cp_le cp) cp after w
            (successor-IsStr cp after e cp_str))
  ]

  handle_row-FlowCursor :
      (row : T) (w : LoopState T)
      → IsStr (key_of row)
      → IsStr (low w)
      → FlowCursor (handle_row key_of params row w)
  unfolding handle_row
  handle_row-FlowCursor row w str h = elim (Bool-cases (is_skipped w.skip_below (key_of row))) [
    | inl skipped ↦ rw skipped h
    | inr kept ↦ elim (Bool-cases (emitted w == params.max_keys)) [
      | inl full ↦ rw (kept, full) (λ c e. let same : low w ≡ c = cc e in rw (← same) h)
      | inr room ↦
          rw (kept, room)
            (handle_group-FlowCursor row (fresh w)
              (classify (key_of row) params.prefix params.delimiter) str refl)
    ]
  ]

  after-FlowCursor :
      (m : Flow T) (k : LoopState T → Flow T)
      → FlowCursor m
      → ((w : LoopState T) → IsStr (low w) → FlowCursor (k w))
      → FlowCursor (m >>= k)
  after-FlowCursor (return page) k h g = h
  after-FlowCursor (break_outer w) k h g = tt
  after-FlowCursor (next w) k h g = g w h

  scan-FlowCursor :
      (rows : List T) (w : LoopState T)
      → All (λ row. IsStr (key_of row)) rows
      → IsStr (low w)
      → FlowCursor (scan key_of params rows w)
  unfolding scan
  scan-FlowCursor [] w strs h = h
  scan-FlowCursor (row ∷ rows) w (str, strs) h =
      after-FlowCursor (handle_row key_of params row w) (scan key_of params rows)
        (handle_row-FlowCursor row w str h) (λ v. scan-FlowCursor rows v strs)

  -- The cursor of a page is a string, if the keys and the cursor before are.
  pub list_page-PageCursor :
      (rows : List T) (fuel : ℕ) (page : ListPage T)
      → IsTable key_of rows
      → IsStr (unwrap_or params.start_from [])
      → 0 < params.max_keys
      → length rows < fuel
      → list_page key_of params (table_fetch key_of rows) fuel ≡ some page
      → PageCursor page
  list_page-PageCursor rows fuel page table str some_room enough h =
      let walk = list_page-eq-walk key_of rows params fuel table some_room enough in
      let m = scan key_of params (rows_from key_of params.start_from rows) (first_state params) in
      let same : finish m ≡ page = cc (walk, h) in
      rw (← same) (
        finish-PageCursor m (
          scan-FlowCursor (rows_from key_of params.start_from rows) (first_state params)
            (from_strs params.start_from rows table.strs) str))
    where
      from_strs :
          (o : Option Text) (rows : List T)
          → All (λ row. IsStr (key_of row)) rows
          → All (λ row. IsStr (key_of row)) (rows_from key_of o rows)
      from_strs none rows h = h
      from_strs (some c) rows h = All-filter _ _ rows h
