-- ===== src/Db/Table.antt =====
-- Tables as SQLite keeps them: rows in the order of their primary keys, one row for a key.
use cubby.Base.{
  ◌≡◌, refl, sym, ◌∙◌, inl, inr, Bool, true, false, not, ◌&&◌, Option, none, some, List, [], ◌∷◌,
  Text, text_eq, text_eq_iff, text_eq_refl, text_ltb, if◌then◌else◌, Bool-cases, find, filter, All,
  All-filter, &&_left, &&_right,
}
use cubby.Base.Order.{ltb_irrefl, ltb_trans, ltb_connex}

-- The columns of a primary key: a text, and a second text or a number alone.
abbrev pub Key : Type 0
Key = Text × Text

unfoldable pub key_eq : Key → Key → Bool
key_eq (a, b) (c, d) = text_eq a c && text_eq b d

unfoldable pub key_ltb : Key → Key → Bool
key_ltb (a, b) (c, d) = if text_eq a c then text_ltb b d else text_ltb a c

pub key_eq_sound : (k l : Key) → key_eq k l ≡ true → k ≡ l
unfolding key_eq
key_eq_sound (a, b) (c, d) h =
    let p = (text_eq_iff a c).0 (&&_left _ _ h) in
    let q = (text_eq_iff b d).0 (&&_right _ _ h) in rw (p, q) refl

pub key_eq_refl : (k : Key) → key_eq k k ≡ true
unfolding key_eq
key_eq_refl (a, b) = rw (text_eq_refl a, text_eq_refl b) refl

key_ltb_irrefl : (k : Key) → key_ltb k k ≡ false
unfolding key_ltb
key_ltb_irrefl (a, b) = rw (text_eq_refl a) (ltb_irrefl b)

text_differs : (a c : Text) → text_ltb a c ≡ true → text_eq a c ≡ false
text_differs a c h = elim (Bool-cases (text_eq a c)) [
  | inl e ↦ absurd (cc (rw ((text_eq_iff a c).0 e) at h, ltb_irrefl c))
  | inr e ↦ e
]

pub key_ltb_trans : (k l m : Key) → key_ltb k l ≡ true → key_ltb l m ≡ true → key_ltb k m ≡ true
unfolding key_ltb
key_ltb_trans (a, b) (c, d) (e, f) h k = elim (Bool-cases (text_eq a c)) [
  | inl p ↦ elim (Bool-cases (text_eq c e)) [
    | inl q ↦
        let same = (text_eq_iff a c).0 p in rw (same, q) (ltb_trans b d f (rw p at h) (rw q at k))
    | inr q ↦ let same = (text_eq_iff a c).0 p in rw (same, q) (rw q at k)
  ]
  | inr p ↦ elim (Bool-cases (text_eq c e)) [
    | inl q ↦
        let same = (text_eq_iff c e).0 q in
        let less = rw p at h in let below = rw same at less in rw (text_differs a e below) below
    | inr q ↦
        let below = ltb_trans a c e (rw p at h) (rw q at k) in rw (text_differs a e below) below
  ]
]

key_ltb_connex : (k l : Key) → key_ltb k l ≡ false → key_ltb l k ≡ false → k ≡ l
unfolding key_ltb
key_ltb_connex (a, b) (c, d) h k = elim (Bool-cases (text_eq a c)) [
  | inl p ↦
      let same = (text_eq_iff a c).0 p in
      let one = rw p at h in
      let two = rw (same, text_eq_refl c) at k in rw (same, ltb_connex b d one two) refl
  | inr p ↦ elim (Bool-cases (text_eq c a)) [
    | inl q ↦ absurd (cc (rw ((text_eq_iff c a).0 q, text_eq_refl a) at p))
    | inr q ↦ absurd (cc (rw (ltb_connex a c (rw p at h) (rw q at k), text_eq_refl c) at p))
  ]
]

key_differs : (k l : Key) → key_ltb k l ≡ true → key_eq k l ≡ false
key_differs k l h = elim (Bool-cases (key_eq k l)) [
  | inl e ↦ absurd (cc (rw (key_eq_sound k l e) at h, key_ltb_irrefl l))
  | inr e ↦ e
]

above_differs : (k l : Key) → key_ltb k l ≡ true → key_eq l k ≡ false
above_differs k l h = elim (Bool-cases (key_eq l k)) [
  | inl e ↦ absurd (cc (rw (key_eq_sound l k e) at h, key_ltb_irrefl k))
  | inr e ↦ e
]

if_twice {ℓ} :
    {A : Type ℓ} (b : Bool) (x y z : A)
    → (if b then x else z) ≡ (if b then x else if b then y else z)
if_twice true x y z = refl
if_twice false x y z = refl

if_none {ℓ} : {A : Type ℓ} (b : Bool) → ◌≡◌ {A = Option A} none (if b then none else none)
if_none true = refl
if_none false = refl

module _ {ℓ} {R : Type ℓ} (key_of : R → Key) where
  -- `INSERT OR REPLACE`, in the place of the key.
  unfoldable pub upsert : R → List R → List R
  upsert row [] = row ∷ []
  upsert row (r ∷ rows) =
      let later = upsert row rows in
      if key_ltb (key_of r) (key_of row)
      then r ∷ later
      else if key_ltb (key_of row) (key_of r)
      then row ∷ r ∷ rows
      else row ∷ rows

  abbrev pub has : Key → R → Bool
  has k r = key_eq (key_of r) k

  -- `SELECT … WHERE` the primary key is a given one, `.optional()`.
  abbrev pub select_row : Key → List R → Option R
  select_row k rows = find (has k) rows

  -- `DELETE … WHERE` the primary key is a given one.
  abbrev pub delete_row : Key → List R → List R
  delete_row k rows = filter (λ r. not (has k r)) rows

  -- Rows in the order of their keys, no key twice.
  abbrev pub Sorted : List R → Type ℓ
  Sorted [] = Unit
  Sorted (r ∷ rows) = All (λ s. key_ltb (key_of r) (key_of s) ≡ true) rows × Sorted rows

  pub upsert-All {κ} :
      (P : R → Type κ) (row : R) (rows : List R) → P row → All P rows → All P (upsert row rows)
  unfolding upsert
  upsert-All P row [] p h = (p, tt)
  upsert-All P row (r ∷ rows) p (q, h) = elim (Bool-cases (key_ltb (key_of r) (key_of row))) [
    | inl e ↦ rw e (q, upsert-All P row rows p h)
    | inr e ↦ elim (Bool-cases (key_ltb (key_of row) (key_of r))) [
      | inl f ↦ rw (e, f) (p, (q, h))
      | inr f ↦ rw (e, f) (p, h)
    ]
  ]

  below_each :
      (k l : Key) (rows : List R)
      → key_ltb k l ≡ true
      → All (λ s. key_ltb l (key_of s) ≡ true) rows
      → All (λ s. key_ltb k (key_of s) ≡ true) rows
  below_each k l [] h all = tt
  below_each k l (s ∷ rows) h (p, all) =
      (key_ltb_trans k l (key_of s) h p, below_each k l rows h all)

  pub upsert-Sorted : (row : R) (rows : List R) → Sorted rows → Sorted (upsert row rows)
  unfolding upsert
  upsert-Sorted row [] h = (tt, tt)
  upsert-Sorted row (r ∷ rows) (after, h) = elim (Bool-cases (key_ltb (key_of r) (key_of row))) [
    | inl e ↦ rw e (
      upsert-All (λ s. key_ltb (key_of r) (key_of s) ≡ true) row rows e after,
      upsert-Sorted row rows h,
    )
    | inr e ↦ elim (Bool-cases (key_ltb (key_of row) (key_of r))) [
      | inl f ↦ rw (e, f) ((f, below_each (key_of row) (key_of r) rows f after), (after, h))
      | inr f ↦
          let same = key_ltb_connex (key_of r) (key_of row) e f in rw (e, f) (rw same at after, h)
    ]
  ]

  pub filter-Sorted : (p : R → Bool) (rows : List R) → Sorted rows → Sorted (filter p rows)
  filter-Sorted p [] h = tt
  filter-Sorted p (r ∷ rows) (after, h) = elim (Bool-cases (p r)) [
    | inl e ↦ rw e (All-filter _ p rows after, filter-Sorted p rows h)
    | inr e ↦ rw e (filter-Sorted p rows h)
  ]

  absent :
      (k : Key) (rows : List R)
      → All (λ s. key_ltb k (key_of s) ≡ true) rows
      → find (has k) rows ≡ none
  absent k [] h = refl
  absent k (s ∷ rows) (p, h) = rw (above_differs k (key_of s) p) (absent k rows h)

  -- What is read after a write: the row that was written for its key, and what was there for others.
  pub select_row-upsert :
      (k : Key) (row : R) (rows : List R)
      → Sorted rows
      → select_row k (upsert row rows) ≡ (if has k row then some row else select_row k rows)
  unfolding upsert
  select_row-upsert k row [] h = refl
  select_row-upsert k row (r ∷ rows) (after, h) =
      elim (Bool-cases (key_ltb (key_of r) (key_of row))) [
        | inl e ↦ elim (Bool-cases (has k r)) [
          | inl f ↦
              let below = rw (key_eq_sound (key_of r) k f) at e in
              rw (e, f, above_differs k (key_of row) below) refl
          | inr f ↦ rw (e, f) (select_row-upsert k row rows h)
        ]
        | inr e ↦ elim (Bool-cases (key_ltb (key_of row) (key_of r))) [
          | inl f ↦ rw (e, f) refl
          | inr f ↦
              let same = key_ltb_connex (key_of r) (key_of row) e f in
              rw (e, f, same) (if_twice (has k row) (some row) (some r) (find (has k) rows))
        ]
      ]

  pub select_row-delete_row :
      (k l : Key) (rows : List R)
      → select_row k (delete_row l rows) ≡ (if key_eq l k then none else select_row k rows)
  select_row-delete_row k l [] = if_none (key_eq l k)
  select_row-delete_row k l (r ∷ rows) = elim (Bool-cases (has l r)) [
    | inl gone ↦ elim (Bool-cases (key_eq l k)) [
      | inl same ↦ rw (gone, same) (select_row-delete_row k l rows ∙ rw same refl)
      | inr other ↦
          let not_k : has k r ≡ false = rw (key_eq_sound (key_of r) l gone) other in
          rw (gone, other, not_k) (select_row-delete_row k l rows ∙ rw other refl)
    ]
    | inr kept ↦ elim (Bool-cases (has k r)) [
      | inl found ↦ elim (Bool-cases (key_eq l k)) [
        | inl same ↦
            let q = key_eq_sound (key_of r) k found ∙ sym (key_eq_sound l k same) in
            absurd (cc (rw (q, key_eq_refl l) at kept))
        | inr other ↦ rw (kept, found, other) refl
      ]
      | inr missed ↦ rw (kept, missed) (select_row-delete_row k l rows)
    ]
  ]
