-- ===== src/Listing/Batches.antt =====
-- The batches and re-seeks of `list_page` cannot be seen: over a sorted table the engine returns
-- the page of one walk over all rows from the cursor on.
use cubby.Base.{
  ℕ, zero, suc, ◌+◌, ◌-◌, ◌≤◌, ◌<◌, ◌≡◌, refl, sym, ap, ◌∙◌, inl, inr, Bool, true, false, Option,
  none, some, List, [], ◌∷◌, ◌++◌, arith, Text, text_ltb, ltb, ◌==◌, Bool-cases, Option-cases, All,
  length, take, drop, take-append-drop, All-filter,
}
use cubby.Base.Order.{ltb_irrefl}
use cubby.Listing.{
  ListParams, ListPage, LoopState, Flow, ◌>>=◌, return, break_outer, next, emitted, last_page,
  fresh, is_skipped, handle_row, scan, outer_loop, after_batch, full_page,
}
use cubby.Listing.Successor.{IsStr}
use cubby.Listing.Seek.{
  Ascending, rows_from, table_fetch, finish, rows_from-ahead, rows_from_twice, length-rows_from,
  Ascending-rest, rows_from-holds, rows_from-Ascending, rows_from-unwrap,
}
use cubby.Listing.Resume.{low, Resumes, later-ahead, step-Resumes}

module _ {ℓ} {T : Type ℓ} (key_of : T → Text) (params : ListParams) (rows : List T) where
  -- `next` is injective, and a bind that goes on has a first part that does.
  >>=-eq-next :
      (m : Flow T) (k : LoopState T → Flow T) (v : LoopState T)
      → (m >>= k) ≡ next v
      → (u : LoopState T) × (m ≡ next u) × (k u ≡ next v)
  >>=-eq-next (return page) k v h = cc
  >>=-eq-next (break_outer w) k v h = cc
  >>=-eq-next (next w) k v h = (w, refl, h)

  >>=-regroup :
      (m : Flow T) (f g k : LoopState T → Flow T)
      → ((v : LoopState T) → f v ≡ (g v >>= k))
      → (m >>= f) ≡ ((m >>= g) >>= k)
  >>=-regroup (return page) f g k h = refl
  >>=-regroup (break_outer w) f g k h = refl
  >>=-regroup (next w) f g k h = h w

  abbrev pub Strs : List T → Type 0
  Strs = All (λ row. IsStr (key_of row))

  scan-Resumes :
      (batch rest : List T) (w v : LoopState T)
      → Resumes key_of rows (batch ++ rest) w
      → Strs (batch ++ rest)
      → Ascending key_of (batch ++ rest)
      → scan key_of params batch w ≡ next v
      → Resumes key_of rows rest v
  unfolding scan
  scan-Resumes [] rest w v inv str asc h = let same : w ≡ v = cc h in rw (← same) inv
  scan-Resumes (row ∷ batch) rest w v inv (s, str) (later, asc) h =
      let (u, first, more) = >>=-eq-next (handle_row key_of params row w) _ v h in
      scan-Resumes batch rest u v
        (step-Resumes key_of rows params row (batch ++ rest) w u inv s later first) str asc more

  scan-append :
      (xs ys : List T) (w : LoopState T)
      → scan key_of params (xs ++ ys) w ≡ (scan key_of params xs w >>= scan key_of params ys)
  unfolding scan
  scan-append [] ys w = refl
  scan-append (x ∷ xs) ys w = >>=-regroup (handle_row key_of params x w) _ _ _ (scan-append xs ys)

  -- A walk that skips below the cursor is a walk from the cursor on.
  pub handle_row-skipped :
      (row : T) (w : LoopState T)
      → is_skipped w.skip_below (key_of row) ≡ true
      → handle_row key_of params row w ≡ next w
  unfolding handle_row
  handle_row-skipped row w h = rw h

  handle_row-fresh :
      (row : T) (w : LoopState T)
      → is_skipped w.skip_below (key_of row) ≡ false
      → handle_row key_of params row w ≡ handle_row key_of params row (fresh w)
  unfolding handle_row
  handle_row-fresh row w kept = rw kept

  fresh_self : (w : LoopState T) → w.skip_below ≡ none → fresh w ≡ w
  fresh_self w e = ap (λ o. record w { skip_below = o }) (sym e)

  scan-skip :
      (sb : Text) (rest : List T) (w : LoopState T)
      → w.skip_below ≡ some sb
      → Ascending key_of rest
      → finish (scan key_of params rest w)
        ≡ finish (scan key_of params (rows_from key_of (some sb) rest) (fresh w))
  unfolding scan
  scan-skip sb [] w e asc = refl
  scan-skip sb (row ∷ rest) w e (later, asc) = elim (Bool-cases (text_ltb (key_of row) sb)) [
    | inl lt ↦ rw (lt, handle_row-skipped row w (rw e lt)) (scan-skip sb rest w e asc)
    | inr ge ↦
        let same = rows_from-ahead key_of sb rest (later-ahead key_of rows sb row rest ge later) in
        rw (ge, same, handle_row-fresh row w (rw e ge)) refl
  ]

  -- Whatever walk is left over a batch, it is the walk from the new cursor on.
  scan-resume :
      (rest : List T) (w : LoopState T)
      → Resumes key_of rows rest w
      → Ascending key_of rest
      → finish (scan key_of params rest w)
        ≡ finish (scan key_of params (rows_from key_of (some (low w)) rows) (fresh w))
  scan-resume rest w inv asc = elim (Option-cases w.skip_below) [
    | inl e ↦
        let seek = inv.back (low w) (ltb_irrefl (low w)) in
        let whole = rows_from-ahead key_of (low w) rest (inv.ahead e) in
        ap (λ v. finish (scan key_of params rest v)) (sym (fresh_self w e))
        ∙ ap (λ r. finish (scan key_of params r (fresh w))) (sym (seek ∙ whole))
    | inr (sb, e) ↦
        let at : low w ≡ sb = rw (inv.skip sb e) in
        scan-skip sb rest w e asc
        ∙ ap (λ r. finish (scan key_of params r (fresh w)))
            (sym (inv.back sb (rw at (ltb_irrefl sb))) ∙ rw at)
  ]

  abbrev pub ahead_of : LoopState T → List T
  ahead_of w = rows_from key_of (some (low w)) rows

  abbrev pub fetch : Option Text → ℕ → List T
  fetch = table_fetch key_of rows

  pub ahead_of-Resumes : (w : LoopState T) → Resumes key_of rows (ahead_of w) (fresh w)
  ahead_of-Resumes w = record {
    back = λ c h. sym (rows_from_twice key_of (low w) c rows h);
    ahead = λ _. rows_from-holds key_of (low w) rows;
    skip = λ sb h. cc h;
  }

  fetch-eq-take : (w : LoopState T) (n : ℕ) → fetch w.cursor n ≡ take n (ahead_of w)
  fetch-eq-take w n = ap (take n) (rows_from-unwrap key_of w.cursor rows)

  full-round :
      (w : LoopState T) (rest : List T)
      → ahead_of w ≡ rest
      → (emitted w == params.max_keys) ≡ true
      → full_page key_of params fetch w ≡ finish (scan key_of params rest (fresh w))
  unfolding full_page scan handle_row
  full-round w [] e full = rw (fetch-eq-take w 1, e)
  full-round w (row ∷ rest) e full = rw (fetch-eq-take w 1, e, full)

  drop-short : (n : ℕ) (xs : List T) → ltb (length (take n xs)) n ≡ true → drop n xs ≡ []
  drop-short zero xs h = cc h
  drop-short (suc n) [] h = refl
  drop-short (suc n) (x ∷ xs) h = drop-short n xs (ground arith)

  length-drop-le : (n : ℕ) (xs : List T) → length (drop n xs) ≤ length xs
  length-drop-le zero xs = omega arith
  length-drop-le (suc n) [] = omega arith
  length-drop-le (suc n) (x ∷ xs) = omega (arith, length-drop-le n xs)

  -- A round over a batch `row ∷ batch` with `rest` behind it, where the loop goes on by `more`.
  round_ends :
      (batch rest : List T) (w : LoopState T) (short : Bool)
      (again : LoopState T → Option (ListPage T))
      → Resumes key_of rows (batch ++ rest) w
      → Strs (batch ++ rest)
      → Ascending key_of (batch ++ rest)
      → (short ≡ true → rest ≡ [])
      → ((v : LoopState T)
          → Resumes key_of rows rest v
          → short ≡ false
          → again v ≡ some (finish (scan key_of params rest v)))
      → after_batch short again (scan key_of params batch w)
        ≡ some (finish (scan key_of params (batch ++ rest) w))
  unfolding scan
  round_ends batch rest w short again inv str asc ends more =
      go (scan key_of params batch w) short refl refl
      ∙ ap (λ m. some (finish m)) (sym (scan-append batch rest w))
    where
      go :
          (m : Flow T) (b : Bool)
          → scan key_of params batch w ≡ m
          → short ≡ b
          → after_batch b again m ≡ some (finish (m >>= scan key_of params rest))
      go (return page) b e s = refl
      go (break_outer v) b e s = refl
      go (next v) true e s = rw (ends s)
      go (next v) false e s = more v (scan-Resumes batch rest w v inv str asc e) s

  -- The rows that a batch leaves are fewer than those that it was cut from.
  round_shrinks :
      (rest : List T) (v : LoopState T)
      → Resumes key_of rows rest v
      → length (ahead_of v) ≤ length rest
  round_shrinks rest v inv =
      rw (inv.back (low v) (ltb_irrefl (low v))) (length-rows_from key_of (low v) rest)

  -- One round that finds rows.
  outer_loop-room :
      (fuel : ℕ) (w : LoopState T) (row : T) (rest : List T)
      → (emitted w == params.max_keys) ≡ false
      → ahead_of w ≡ row ∷ rest
      → outer_loop key_of params fetch (suc fuel) w
        ≡ after_batch
            (ltb (length (take (params.max_keys - emitted w) rest)) (params.max_keys - emitted w))
            (outer_loop key_of params fetch fuel)
            (scan key_of params (row ∷ take (params.max_keys - emitted w) rest) (fresh w))
  unfolding outer_loop
  outer_loop-room fuel w row rest room e =
      let left = params.max_keys - emitted w in
      let want : left + 1 ≡ suc left = omega arith in
      let short : ltb (suc (length (take left rest))) (suc left)
          ≡ ltb (length (take left rest)) left =
        ground arith in
      rw (room, fetch-eq-take w (left + 1), e, want, short) refl

  outer_loop-empty :
      (fuel : ℕ) (w : LoopState T)
      → (emitted w == params.max_keys) ≡ false
      → ahead_of w ≡ []
      → outer_loop key_of params fetch (suc fuel) w ≡ some (last_page w)
  unfolding outer_loop
  outer_loop-empty fuel w room e =
      let left = params.max_keys - emitted w in
      let want : left + 1 ≡ suc left = omega arith in
      rw (room, fetch-eq-take w (left + 1), e, want) refl

  outer_loop-full :
      (fuel : ℕ) (w : LoopState T)
      → (emitted w == params.max_keys) ≡ true
      → outer_loop key_of params fetch (suc fuel) w ≡ some (full_page key_of params fetch w)
  unfolding outer_loop
  outer_loop-full fuel w full = rw full

  room-round :
      (fuel : ℕ) (w : LoopState T) (rest : List T)
      → ahead_of w ≡ rest
      → Strs rest
      → Ascending key_of rest
      → (emitted w == params.max_keys) ≡ false
      → length rest < suc fuel
      → ((v : LoopState T)
          → length (ahead_of v) < fuel
          → outer_loop key_of params fetch fuel v
            ≡ some (finish (scan key_of params (ahead_of v) (fresh v))))
      → outer_loop key_of params fetch (suc fuel) w
        ≡ some (finish (scan key_of params rest (fresh w)))
  unfolding scan
  room-round fuel w [] e str asc room h ih = outer_loop-empty fuel w room e
  room-round fuel w (row ∷ rest) e str asc room h ih =
      let left = params.max_keys - emitted w in
      let later = drop left rest in
      let joined : take left rest ++ later ≡ rest = take-append-drop left rest in
      outer_loop-room fuel w row rest room e
      ∙ round_ends (row ∷ take left rest) later (fresh w) (ltb (length (take left rest)) left)
          (outer_loop key_of params fetch fuel) (rw (joined, ← e) (ahead_of-Resumes w))
          (rw joined str) (rw joined asc) (drop-short left rest)
          (λ v inv _.
            ih v (omega (arith, round_shrinks later v inv, length-drop-le left rest))
            ∙ ap some (
                sym (
                  scan-resume later v inv
                    (Ascending-rest key_of (take left rest) later (rw joined asc.1)))))
      ∙ ap (λ r. some (finish (scan key_of params (row ∷ r) (fresh w)))) joined

  pub batches :
      (fuel : ℕ) (w : LoopState T)
      → Strs rows
      → Ascending key_of rows
      → length (ahead_of w) < fuel
      → outer_loop key_of params fetch fuel w
        ≡ some (finish (scan key_of params (ahead_of w) (fresh w)))
  batches zero w str asc h = elim h [ ]
  batches (suc fuel) w str asc h = elim (Bool-cases (emitted w == params.max_keys)) [
    | inl full ↦ outer_loop-full fuel w full ∙ ap some (full-round w (ahead_of w) refl full)
    | inr room ↦
        room-round fuel w (ahead_of w) refl (All-filter _ _ rows str)
          (rows_from-Ascending key_of (low w) rows asc) room h (λ v. batches fuel v str asc)
  ]
