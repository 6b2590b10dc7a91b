-- ===== src/Listing/Pages.antt =====
-- What a walk over the rest of the table puts on the page: the next items, as many as there is
-- room for, and a cursor from which the items behind them follow.
use cubby.Base.{
  ℕ, suc, ◌-◌, ◌≤◌, ◌<◌, ◌≡◌, refl, ap, ◌∙◌, inl, inr, true, false, Option, none, some, List, [],
  ◌∷◌, ◌++◌, append_assoc, append-nil, arith, Text, text_ltb, ltb, ◌==◌, Bool-cases, Option-cases,
  All, length, take, take-nil, drop, length-append,
}
use cubby.Base.Order.{ltb_irrefl}
use cubby.Listing.{
  ListParams, ListPage, Group, content, rolled, LoopState, ◌>>=◌, return, next, emitted, last_page,
  truncated_page, fresh, is_skipped, is_covered, push_content, push_group, handle_group, handle_row,
  scan, successor,
}
use cubby.Listing.Seek.{Ascending, rows_from, finish, rows_from-ahead}
use cubby.Listing.Resume.{low, Resumes, later-ahead, handle_row-room, handled-Resumes, step-Resumes}
use cubby.Listing.Batches.{handle_row-skipped}
use cubby.Listing.Items.{
  Item, key_item, group_item, rows_of, groups_of, group_of, walk_items, visit, IsListed, IsBounded,
  group_bound,
}

module _ {ℓ} {T : Type ℓ} (key_of : T → Text) (params : ListParams) (rows : List T) where
  abbrev pub room : LoopState T → ℕ
  room w = params.max_keys - emitted w

  pub record Shows (w : LoopState T) (items : List (Item T)) (page : ListPage T) : Type ℓ where
    pub contents : page.contents ≡ w.contents ++ rows_of (take (room w) items)
    pub groups : page.common_prefixes ≡ w.common_prefixes ++ groups_of (take (room w) items)
    pub truncated : page.is_truncated ≡ ltb (room w) (length items)
    pub resumes :
        page.is_truncated ≡ true
        → (c : Text) × (page.next_cursor ≡ some c)
          × (walk_items key_of params none (rows_from key_of (some c) rows) ≡ drop (room w) items)

  -- The items from the cursor on are those that the walk has left.
  walk_items-seek :
      (row : T) (rest : List T) (w : LoopState T)
      → Resumes key_of rows (row ∷ rest) w
      → is_skipped w.skip_below (key_of row) ≡ false
      → Ascending key_of (row ∷ rest)
      → walk_items key_of params none (rows_from key_of (some (low w)) rows)
        ≡ walk_items key_of params w.skip_below (row ∷ rest)
  unfolding walk_items
  walk_items-seek row rest w inv kept (later, asc) = elim (Option-cases w.skip_below) [
    | inl e ↦ rw (
      inv.back (low w) (ltb_irrefl (low w)),
      rows_from-ahead key_of (low w) (row ∷ rest) (inv.ahead e),
      e,
    )
    | inr (sb, e) ↦
        let past : text_ltb (key_of row) sb ≡ false = rw e at kept in
        let at : low w ≡ sb = rw (inv.skip sb e) in
        rw (
          at,
          inv.back sb (rw at (ltb_irrefl sb)),
          rows_from-ahead key_of sb (row ∷ rest)
              (past, later-ahead key_of rows sb row rest past later),
          e,
          past,
        )
  ]

  Shows-empty : (w : LoopState T) → Shows w [] (last_page w)
  Shows-empty w = record {
    contents = rw (take-nil {A = Item T} (room w), append-nil w.contents);
    groups = rw (take-nil {A = Item T} (room w), append-nil w.common_prefixes);
    truncated = ground arith;
    resumes = λ h. cc h;
  }

  Shows-full :
      (row : T) (rest : List T) (w : LoopState T)
      → Resumes key_of rows (row ∷ rest) w
      → is_skipped w.skip_below (key_of row) ≡ false
      → Ascending key_of (row ∷ rest)
      → (emitted w == params.max_keys) ≡ true
      → (items : List (Item T)) → walk_items key_of params w.skip_below (row ∷ rest) ≡ items
      → 0 < length items
      → Shows w items (truncated_page w)
  Shows-full row rest w inv kept asc full items e some_item =
      let none_left : room w ≡ 0 = ground arith in
      record {
        contents = rw (none_left, append-nil w.contents);
        groups = rw (none_left, append-nil w.common_prefixes);
        truncated = rw none_left (ground arith);
        resumes = λ h. (low w, refl, walk_items-seek row rest w inv kept asc ∙ e ∙ rw none_left);
      }

  Shows-content :
      (row : T) (w : LoopState T) (items : List (Item T)) (page : ListPage T)
      → (emitted w == params.max_keys) ≡ false
      → emitted w ≤ params.max_keys
      → Shows (push_content row (key_of row) w) items page
      → Shows w (key_item row ∷ items) page
  Shows-content row w items page not_full fits s =
      let v = push_content row (key_of row) w in
      let more : room w ≡ suc (room v) = ground (arith, length-append w.contents (row ∷ [])) in
      record {
        contents = s.contents ∙ rw more (append_assoc w.contents (row ∷ []) _);
        groups = s.groups ∙ rw more;
        truncated = s.truncated ∙ rw more (ground arith);
        resumes = λ h. rw more (s.resumes h);
      }

  Shows-group :
      (cp after : Text) (w : LoopState T) (items : List (Item T)) (page : ListPage T)
      → (emitted w == params.max_keys) ≡ false
      → emitted w ≤ params.max_keys
      → Shows (push_group false cp after (fresh w)) items page
      → Shows w (group_item cp ∷ items) page
  Shows-group cp after w items page not_full fits s =
      let v = push_group false cp after (fresh w) in
      let more : room w ≡ suc (room v) =
        ground (arith, length-append w.common_prefixes (cp ∷ [])) in
      record {
        contents = s.contents ∙ rw more;
        groups = s.groups ∙ rw more (append_assoc w.common_prefixes (cp ∷ []) _);
        truncated = s.truncated ∙ rw more (ground arith);
        resumes = λ h. rw more (s.resumes h);
      }

  handle_row-full :
      (row : T) (w : LoopState T)
      → is_skipped w.skip_below (key_of row) ≡ false
      → (emitted w == params.max_keys) ≡ true
      → handle_row key_of params row w ≡ return (truncated_page w)
  unfolding handle_row
  handle_row-full row w kept full = rw (kept, full)

  walk_items-skipped :
      (skip : Option Text) (row : T) (rest : List T)
      → is_skipped skip (key_of row) ≡ true
      → walk_items key_of params skip (row ∷ rest) ≡ walk_items key_of params skip rest
  unfolding walk_items
  walk_items-skipped skip row rest h = rw h

  walk_items-kept :
      (skip : Option Text) (row : T) (rest : List T)
      → is_skipped skip (key_of row) ≡ false
      → walk_items key_of params skip (row ∷ rest)
        ≡ visit key_of params row
            (group_of key_of params row)
            (λ o. walk_items key_of params o rest)
  unfolding walk_items
  walk_items-kept skip row rest h = rw h

  visit_pos :
      (row : T) (g : Group) (later : Option Text → List (Item T))
      → 0 < length (visit key_of params row g later)
  visit_pos row content later = omega arith
  visit_pos row (rolled cp) later = omega arith

  module _ (bounded : IsBounded key_of params) (v2 : params.skip_cp_le ≡ none) where
    -- The rest of the walk shows what it shows, whatever state it starts from.
    abbrev pub ShowsRest : List T → Type ℓ
    ShowsRest rest =
        (v : LoopState T)
        → Resumes key_of rows rest v
        → emitted v ≤ params.max_keys
        → Shows v (walk_items key_of params v.skip_below rest) (finish (scan key_of params rest v))

    handle_group-rolled :
        (row : T) (w : LoopState T) (cp after : Text)
        → successor cp ≡ some after
        → handle_group key_of params row w (rolled cp) ≡ next (push_group false cp after w)
    handle_group-rolled row w cp after bound =
        let uncovered : is_covered params.skip_cp_le cp ≡ false = rw v2 in
        let step : handle_group key_of params row w (rolled cp)
            ≡ next (push_group (is_covered params.skip_cp_le cp) cp after w) =
          rw (bound, handle_group) in
        step ∙ ap (λ b. next (push_group b cp after w)) uncovered

    handled-Shows :
        (row : T) (rest : List T) (w : LoopState T) (g : Group)
        → Resumes key_of rows (row ∷ rest) w
        → IsListed key_of params row
        → Ascending key_of (row ∷ rest)
        → emitted w ≤ params.max_keys
        → is_skipped w.skip_below (key_of row) ≡ false
        → (emitted w == params.max_keys) ≡ false
        → group_of key_of params row ≡ g
        → ShowsRest rest
        → Shows w
            (visit key_of params row g (λ o. walk_items key_of params o rest))
            (finish (handle_group key_of params row (fresh w) g >>= scan key_of params rest))
    handled-Shows row rest w content inv l asc fits kept not_full h ih =
        Shows-content row w _ _ not_full fits (
          ih (push_content row (key_of row) w)
            (handled-Resumes key_of rows params row rest w _ content inv l.0 asc.0 kept h refl)
            (ground (arith, length-append w.contents (row ∷ []))))
    handled-Shows row rest w (rolled cp) inv l asc fits kept not_full h ih =
        let (after, bound) = group_bound key_of params bounded row cp l h in
        let step = handle_group-rolled row (fresh w) cp after bound in
        rw (step, bound)
          (Shows-group cp after w _ _ not_full fits (
            ih (push_group false cp after (fresh w))
              (handled-Resumes key_of rows params row rest w _ (rolled cp) inv l.0 asc.0 kept h
                step)
              (ground (arith, length-append w.common_prefixes (cp ∷ [])))))

    pub scan-Shows :
        (rest : List T) → All (IsListed key_of params) rest → Ascending key_of rest → ShowsRest rest
    unfolding scan
    scan-Shows [] listed asc v inv fits = unfold walk_items in Shows-empty v
    scan-Shows (row ∷ rest) (l, listed) (later, asc) v inv fits =
        elim (Bool-cases (is_skipped v.skip_below (key_of row))) [
          | inl skipped ↦
              let step = handle_row-skipped key_of params rows row v skipped in
              rw (step, walk_items-skipped v.skip_below row rest skipped)
                (scan-Shows rest listed asc v
                  (step-Resumes key_of rows params row rest v v inv l.0 later step) fits)
          | inr kept ↦ elim (Bool-cases (emitted v == params.max_keys)) [
            | inl full ↦ rw (handle_row-full row v kept full) (
                Shows-full row rest v inv kept (later, asc) full _ refl
                  (rw (walk_items-kept v.skip_below row rest kept) (visit_pos row _ _)))
            | inr not_full ↦
                rw
                  (
                    handle_row-room key_of rows params row v kept not_full,
                    walk_items-kept v.skip_below row rest kept,
                  )
                  (handled-Shows row rest v (group_of key_of params row) inv l (later, asc) fits
                    kept not_full refl (scan-Shows rest listed asc))
          ]
        ]
