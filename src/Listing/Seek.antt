-- ===== src/Listing/Seek.antt =====
-- The seek primitive over a table that is sorted by its key, and the keys of a delimiter group.
use cubby.Base.{
  ℕ, ◌+◌, ◌≤◌, ◌≡◌, refl, sym, ap, inl, inr, true, false, not, Option, none, some, List, [], ◌∷◌,
  ◌++◌, arith, Text, text_ltb, Bool-cases, Option-cases, All, length, take, drop, filter, unwrap_or,
  take-append-drop, All-take, All-filter,
}
use cubby.Base.Order.{ltb_le_trans}
use cubby.Listing.{
  ListPage, rolled, classify, find_from, Flow, return, break_outer, next, last_page, successor,
}
use cubby.Listing.Successor.{IsScalar, IsStr, lt-successor}

classify-rolled :
    (key prefix : Text) (delimiter : Option Text) (cp : Text)
    → classify key prefix delimiter ≡ rolled cp
    → (n : ℕ) × (cp ≡ take n key)
unfolding classify
classify-rolled key prefix none cp h = cc
classify-rolled key prefix (some []) cp h = cc
classify-rolled key prefix (some (d ∷ delim)) cp h =
    elim (Option-cases (find_from (drop (length prefix) key) (d ∷ delim) 0)) [
      | inl e ↦ cc e
      | inr (i, e) ↦ (length prefix + i + length (d ∷ delim), ground arith)
    ]

module _ {ℓ} {T : Type ℓ} (key_of : T → Text) where
  -- Strictly ascending keys: a table in the order of its primary key.
  abbrev pub Ascending : List T → Type 0
  Ascending [] = Unit
  Ascending (row ∷ rows) =
      All (λ later. text_ltb (key_of row) (key_of later) ≡ true) rows × Ascending rows

  -- `key >= from`
  abbrev pub rows_from : Option Text → List T → List T
  rows_from none rows = rows
  rows_from (some c) rows = filter (λ row. not (text_ltb (key_of row) c)) rows

  -- The seek primitive over a sorted table of the keys with the prefix.
  abbrev pub table_fetch : List T → Option Text → ℕ → List T
  table_fetch rows from limit = take limit (rows_from from rows)

abbrev pub finish {ℓ} : {T : Type ℓ} → Flow T → ListPage T
finish (return page) = page
finish (break_outer w) = last_page w
finish (next w) = last_page w

-- A key lies below the successor of the group that it is rolled up into.
pub rolled-below :
    (key prefix : Text) (delimiter : Option Text) (cp after : Text)
    → classify key prefix delimiter ≡ rolled cp
    → successor cp ≡ some after
    → IsStr key
    → text_ltb key after ≡ true
rolled-below key prefix delimiter cp after h s str =
    let (n, front) = classify-rolled key prefix delimiter cp h in
    let whole : cp ++ drop n key ≡ key = rw front (take-append-drop n key) in
    let cp-str : IsStr cp = rw front (All-take IsScalar n key str) in
    rw (← whole) (lt-successor cp after (drop n key) s cp-str (rw whole str))

ltb-longer : (p z : Text) → text_ltb (p ++ z) p ≡ false
unfolding text_ltb
ltb-longer [] z = refl
ltb-longer (c ∷ p) z = ground (arith, ltb-longer p z)

-- A key is not below the group that it is rolled up into.
pub rolled-ahead :
    (key prefix : Text) (delimiter : Option Text) (cp : Text)
    → classify key prefix delimiter ≡ rolled cp
    → (text_ltb key cp ≡ false) × (IsStr key → IsStr cp)
rolled-ahead key prefix delimiter cp h =
    let (n, front) = classify-rolled key prefix delimiter cp h in
    let whole : cp ++ drop n key ≡ key = rw front (take-append-drop n key) in
    (rw (← whole) (ltb-longer cp (drop n key)), λ str. rw front (All-take IsScalar n key str))

-- Filtering by an upper part of a filter.
module _ {ℓ} {T : Type ℓ} (key_of : T → Text) where
  pub rows_from-below :
      (c : Text) (row : T) (rows : List T)
      → text_ltb (key_of row) c ≡ true
      → rows_from key_of (some c) (row ∷ rows) ≡ rows_from key_of (some c) rows
  rows_from-below c row rows h = rw h

  pub rows_from-ahead :
      (c : Text) (rows : List T)
      → All (λ row. text_ltb (key_of row) c ≡ false) rows
      → rows_from key_of (some c) rows ≡ rows
  rows_from-ahead c [] h = refl
  rows_from-ahead c (row ∷ rows) (p, h) = rw p (ap (λ t. row ∷ t) (rows_from-ahead c rows h))

  -- Seeking twice is seeking once, to the later place.
  pub rows_from_twice :
      (c d : Text) (rows : List T)
      → text_ltb d c ≡ false
      → rows_from key_of (some d) (rows_from key_of (some c) rows) ≡ rows_from key_of (some d) rows
  rows_from_twice c d [] h = refl
  rows_from_twice c d (row ∷ rows) h = elim (Bool-cases (text_ltb (key_of row) c)) [
    | inl lt ↦
        let below : text_ltb (key_of row) d ≡ true = ltb_le_trans (key_of row) c d lt h in
        rw (lt, below) (rows_from_twice c d rows h)
    | inr ge ↦ rw ge (rw (rows_from_twice c d rows h))
  ]

  pub length-rows_from :
      (c : Text) (rows : List T) → length (rows_from key_of (some c) rows) ≤ length rows
  length-rows_from c [] = omega arith
  length-rows_from c (row ∷ rows) = ground (arith, length-rows_from c rows)

module _ {ℓ} {T : Type ℓ} (key_of : T → Text) where
  pub rows_from-holds :
      (c : Text) (rows : List T)
      → All (λ row. text_ltb (key_of row) c ≡ false) (rows_from key_of (some c) rows)
  rows_from-holds c [] = tt
  rows_from-holds c (row ∷ rows) = elim (Bool-cases (text_ltb (key_of row) c)) [
    | inl lt ↦ rw lt (rows_from-holds c rows)
    | inr ge ↦ rw ge (ge, rows_from-holds c rows)
  ]

  pub rows_from-Ascending :
      (c : Text) (rows : List T)
      → Ascending key_of rows
      → Ascending key_of (rows_from key_of (some c) rows)
  rows_from-Ascending c [] asc = tt
  rows_from-Ascending c (row ∷ rows) (later, asc) = elim (Bool-cases (text_ltb (key_of row) c)) [
    | inl lt ↦ rw lt (rows_from-Ascending c rows asc)
    | inr ge ↦ rw ge (All-filter _ _ rows later, rows_from-Ascending c rows asc)
  ]

  pub Ascending-rest : (xs ys : List T) → Ascending key_of (xs ++ ys) → Ascending key_of ys
  Ascending-rest [] ys asc = asc
  Ascending-rest (x ∷ xs) ys (_, asc) = Ascending-rest xs ys asc

  -- No cursor is the empty text: no key is below it.
  pub rows_from-unwrap :
      (o : Option Text) (rows : List T)
      → rows_from key_of o rows ≡ rows_from key_of (some (unwrap_or o [])) rows
  unfolding text_ltb
  rows_from-unwrap (some c) rows = refl
  rows_from-unwrap none rows = sym (rows_from-ahead key_of [] rows (none_below rows))
    where
      none_below : (rs : List T) → All (λ row. text_ltb (key_of row) [] ≡ false) rs
      none_below [] = tt
      none_below (r ∷ rs) = (refl, none_below rs)
