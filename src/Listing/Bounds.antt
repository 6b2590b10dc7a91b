-- ===== src/Listing/Bounds.antt =====
-- What every page of the engine keeps to, with a marker too: its size, and that all that it lists lies
-- behind the marker.
use cubby.Base.{
  ℕ, ◌+◌, ◌≤◌, ◌<◌, ◌≡◌, refl, inl, inr, Bool, true, false, Option, none, some, List, [], ◌∷◌, ◌++◌,
  arith, Text, text_ltb, text_leb, ◌==◌, Bool-cases, Option-cases, All, All-append, length,
  length-append,
}
use cubby.Base.Order.{ltb_le_trans, ltb-append}
use cubby.Listing.{
  ListParams, ListPage, Group, content, rolled, classify, LoopState, Flow, ◌>>=◌, return,
  break_outer, next, emitted, last_page, fresh, is_skipped, is_covered, first_state, push_group,
  handle_group, handle_row, scan, successor, list_page,
}
use cubby.Listing.Seek.{rows_from, table_fetch, finish}
use cubby.Listing.Paging.{IsTable, list_page-eq-walk}

-- Strictly behind the marker, if there is one.
abbrev pub Behind : Option Text → Text → Type 0
Behind none t = Unit
Behind (some m) t = text_ltb m t ≡ true

uncovered-Behind :
    (marker : Option Text) (cp : Text) → is_covered marker cp ≡ false → Behind marker cp
unfolding text_leb
uncovered-Behind none cp h = tt
uncovered-Behind (some m) cp h = ground arith

module _ {ℓ} {T : Type ℓ} (key_of : T → Text) (params : ListParams) where
  record Keeps (contents : List T) (groups : List Text) : Type ℓ where
    size : length contents + length groups ≤ params.max_keys
    keys : All (λ row. Behind params.skip_cp_le (key_of row)) contents
    cps : All (Behind params.skip_cp_le) groups

  abbrev FlowKeeps : Flow T → Type ℓ
  FlowKeeps (return page) = Keeps page.contents page.common_prefixes
  FlowKeeps (break_outer w) = Keeps w.contents w.common_prefixes
  FlowKeeps (next w) = Keeps w.contents w.common_prefixes

  finish-Keeps : (m : Flow T) → FlowKeeps m → Keeps (finish m).contents (finish m).common_prefixes
  finish-Keeps (return page) h = h
  finish-Keeps (break_outer w) h = h
  finish-Keeps (next w) h = h

  push_group-Keeps :
      (covered : Bool) (cp after : Text) (w : LoopState T)
      → is_covered params.skip_cp_le cp ≡ covered
      → emitted w < params.max_keys
      → Keeps w.contents w.common_prefixes
      → FlowKeeps (next (push_group covered cp after w))
  push_group-Keeps true cp after w e room k = k
  push_group-Keeps false cp after w e room k = record {
    size = omega (arith, room, length-append {0} w.common_prefixes (cp ∷ []));
    keys = k.keys;
    cps =
        All-append _ w.common_prefixes (cp ∷ []) k.cps
          (uncovered-Behind params.skip_cp_le cp e, tt);
  }

  handle_group-Keeps :
      (row : T) (w : LoopState T) (g : Group)
      → Behind params.skip_cp_le (key_of row)
      → emitted w < params.max_keys
      → Keeps w.contents w.common_prefixes
      → FlowKeeps (handle_group key_of params row w g)
  handle_group-Keeps row w content behind room k = record {
    size = omega (arith, room, length-append {ℓ} w.contents (row ∷ []));
    keys = All-append _ w.contents (row ∷ []) k.keys (behind, tt);
    cps = k.cps;
  }
  handle_group-Keeps row w (rolled cp) behind room k = elim (Option-cases (successor cp)) [
    | inl e ↦ rw (e, handle_group) k
    | inr (after, e) ↦
        rw (e, handle_group)
          (push_group-Keeps (is_covered params.skip_cp_le cp) cp after w refl room k)
  ]

  handle_row-Keeps :
      (row : T) (w : LoopState T)
      → Behind params.skip_cp_le (key_of row)
      → Keeps w.contents w.common_prefixes
      → FlowKeeps (handle_row key_of params row w)
  unfolding handle_row
  handle_row-Keeps row w behind k = elim (Bool-cases (is_skipped w.skip_below (key_of row))) [
    | inl skipped ↦ rw skipped k
    | inr kept ↦ elim (Bool-cases (emitted w == params.max_keys)) [
      | inl full ↦ rw (kept, full) k
      | inr not_full ↦
          let fits = k.size in
          rw (kept, not_full)
            (handle_group-Keeps row (fresh w) (classify (key_of row) params.prefix params.delimiter)
              behind (ground (arith, fits)) k)
    ]
  ]

  after-Keeps :
      (m : Flow T) (k : LoopState T → Flow T)
      → FlowKeeps m
      → ((w : LoopState T) → Keeps w.contents w.common_prefixes → FlowKeeps (k w))
      → FlowKeeps (m >>= k)
  after-Keeps (return page) k h g = h
  after-Keeps (break_outer w) k h g = h
  after-Keeps (next w) k h g = g w h

  scan-Keeps :
      (rows : List T) (w : LoopState T)
      → All (λ row. Behind params.skip_cp_le (key_of row)) rows
      → Keeps w.contents w.common_prefixes
      → FlowKeeps (scan key_of params rows w)
  unfolding scan
  scan-Keeps [] w h k = k
  scan-Keeps (row ∷ rows) w (behind, h) k =
      after-Keeps (handle_row key_of params row w) (scan key_of params rows)
        (handle_row-Keeps row w behind k) (λ v. scan-Keeps rows v h)

  -- The engine ends, with one round more than there are rows, on a page of that size and behind the
  -- marker, if the rows that it starts from are behind it.
  pub list_page-ends :
      (rows : List T) (fuel : ℕ)
      → IsTable key_of rows
      → length rows < fuel
      → All (λ row. Behind params.skip_cp_le (key_of row)) (rows_from key_of params.start_from rows)
      → (page : ListPage T) × (list_page key_of params (table_fetch key_of rows) fuel ≡ some page)
        × (length page.contents + length page.common_prefixes ≤ params.max_keys)
        × All (λ row. Behind params.skip_cp_le (key_of row)) page.contents
        × All (Behind params.skip_cp_le) page.common_prefixes
  unfolding list_page
  list_page-ends rows fuel table enough behind = elim (Bool-cases (params.max_keys == 0)) [
    | inl empty ↦ (last_page (first_state params), rw empty refl, omega arith, tt, tt)
    | inr some_room ↦
        let walk : List T = rows_from key_of params.start_from rows in
        let m = scan key_of params walk (first_state params) in
        let k = finish-Keeps m (
          scan-Keeps walk (first_state params) behind
            record { size = omega arith; keys = tt; cps = tt }) in
        (
          finish m,
          list_page-eq-walk key_of rows params fuel table (ground arith) enough,
          k.size,
          k.keys,
          k.cps,
        )
  ]

-- The rows from a marker on are behind it.
pub after_marker {ℓ} :
    {T : Type ℓ} (key_of : T → Text) (m : Text) (rows : List T)
    → All (λ row. text_ltb m (key_of row) ≡ true) (rows_from key_of (some (m ++ 0 ∷ [])) rows)
after_marker key_of m [] = tt
after_marker key_of m (row ∷ rows) = elim (Bool-cases (text_ltb (key_of row) (m ++ 0 ∷ []))) [
  | inl before ↦ rw before (after_marker key_of m rows)
  | inr behind ↦ rw behind (
    ltb_le_trans m (m ++ 0 ∷ []) (key_of row) (ltb-append m 0) behind,
    after_marker key_of m rows,
  )
]
