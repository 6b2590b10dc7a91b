-- ===== src/Listing/Items.antt =====
-- What a listing means, with no cursor and no page: each key is an item, or one item stands for
-- all the keys of a delimiter group. A walk that skips by successors yields the same items.
use cubby.Base.{
  ◌≡◌, ◌≢◌, refl, sym, ap, ◌∙◌, ◌⊎◌, inl, inr, Bool, true, false, Option, none, some, List, [], ◌∷◌,
  Text, text_ltb, text_eq, text_eq_iff, text_eq_refl, starts_with, if◌then◌else◌, Bool-cases,
  Option-cases, All,
}
use cubby.Base.Order.{ltb_asymm, le_trans}
use cubby.Listing.{ListParams, Group, content, rolled, classify, is_skipped, successor}
use cubby.Listing.Successor.{IsStr}
use cubby.Listing.Seek.{Ascending, rolled-below, rolled-ahead}
use cubby.Listing.Groups.{in_group, rolled-successor}

pub data Item {ℓ} (T : Type ℓ) : Type ℓ where
  key_item : T → Item T
  group_item : Text → Item T

abbrev pub rows_of {ℓ} : {T : Type ℓ} → List (Item T) → List T
rows_of [] = []
rows_of (key_item row ∷ items) = row ∷ rows_of items
rows_of (group_item cp ∷ items) = rows_of items

abbrev pub groups_of {ℓ} : {T : Type ℓ} → List (Item T) → List Text
groups_of [] = []
groups_of (key_item row ∷ items) = groups_of items
groups_of (group_item cp ∷ items) = cp ∷ groups_of items

-- Whether the group is the one of the key before.
abbrev pub is_open : Option Text → Text → Bool
is_open none cp = false
is_open (some last) cp = text_eq last cp

module _ {ℓ} {T : Type ℓ} (key_of : T → Text) (params : ListParams) where
  abbrev pub group_of : T → Group
  group_of row = classify (key_of row) params.prefix params.delimiter

  abbrev pub place : Option Text → T → Group → (Option Text → List (Item T)) → List (Item T)
  place last row content rest = key_item row ∷ rest none
  place last row (rolled cp) rest =
      if is_open last cp then rest (some cp) else group_item cp ∷ rest (some cp)

  -- The specification, for the group of the key before: a group is one item, at its first key.
  unfoldable pub collapse : Option Text → List T → List (Item T)
  collapse last [] = []
  collapse last (row ∷ rows) = place last row (group_of row) (λ o. collapse o rows)

  abbrev pub visit : T → Group → (Option Text → List (Item T)) → List (Item T)
  visit row content rest = key_item row ∷ rest none
  visit row (rolled cp) rest = group_item cp ∷ rest (successor cp)

  -- The items that a walk meets which leaves out the keys below `skip`.
  unfoldable pub walk_items : Option Text → List T → List (Item T)
  walk_items skip [] = []
  walk_items skip (row ∷ rows) =
      let later = walk_items skip rows in
      if is_skipped skip (key_of row)
      then later
      else visit row (group_of row) (λ o. walk_items o rows)

  abbrev pub items : List T → List (Item T)
  items rows = collapse none rows

  -- A listed row: text that begins with the prefix.
  abbrev pub IsListed : T → Type 0
  IsListed row = IsStr (key_of row) × (starts_with (key_of row) params.prefix ≡ true)

  -- No common prefix is without a successor.
  abbrev pub IsBounded : Type 0
  IsBounded = (d : Text) → params.delimiter ≡ some d → successor d ≢ none

  -- The walk leaves out what the specification joins: the keys of the group `cp`.
  pub record Joins (skip last : Option Text) (rows : List T) : Type ℓ where
    first : T
    cp : Text
    after : Text
    grouped : group_of first ≡ rolled cp
    listed : IsListed first
    skips : skip ≡ some after
    opened : last ≡ some cp
    bound : successor cp ≡ some after
    ahead : All (λ row. text_ltb (key_of row) cp ≡ false) rows

  module _ (bounded : IsBounded) where
    pub group_bound :
        (row : T) (cp : Text)
        → IsListed row
        → group_of row ≡ rolled cp
        → (after : Text) × (successor cp ≡ some after)
    unfolding classify
    group_bound row cp (str, begins) h = elim (Option-cases params.delimiter) [
      | inl e ↦ cc (rw (e, classify) at h)
      | inr (d, e) ↦ elim (Option-cases (successor cp)) [
        | inl unbounded ↦ absurd (
            rolled-successor (key_of row) params.prefix d cp begins (rw e at h) (bounded d e)
              unbounded)
        | inr found ↦ found
      ]
    ]

    opens-Joins :
        (row : T) (rows : List T) (cp : Text)
        → IsListed row
        → All (λ later. text_ltb (key_of row) (key_of later) ≡ true) rows
        → group_of row ≡ rolled cp
        → Joins (successor cp) (some cp) rows
    opens-Joins row rows cp l later h =
        let (after, bound) = group_bound row cp l h in
        record {
          first = row;
          cp = cp;
          after = after;
          grouped = h;
          listed = l;
          skips = bound;
          opened = refl;
          bound = bound;
          ahead = behind rows later;
        }
      where
        from_group : text_ltb (key_of row) cp ≡ false
        from_group = (rolled-ahead (key_of row) params.prefix params.delimiter cp h).0

        behind :
            (rs : List T)
            → All (λ later. text_ltb (key_of row) (key_of later) ≡ true) rs
            → All (λ later. text_ltb (key_of later) cp ≡ false) rs
        behind [] k = tt
        behind (r ∷ rs) (p, k) = (
          le_trans cp (key_of row) (key_of r) from_group (ltb_asymm (key_of row) (key_of r) p),
          behind rs k,
        )

    abbrev pub IsJoined : Option Text → Option Text → List T → Type ℓ
    IsJoined skip last rows = ((skip ≡ none) × (last ≡ none)) ⊎ Joins skip last rows

    -- A row that opens an item opens the same one in both.
    visit-eq-place :
        (last : Option Text) (row : T) (rows : List T) (g : Group)
        → IsListed row
        → All (λ later. text_ltb (key_of row) (key_of later) ≡ true) rows
        → group_of row ≡ g
        → ((cp : Text) → g ≡ rolled cp → is_open last cp ≡ false)
        → ((skip next : Option Text)
            → IsJoined skip next rows
            → walk_items skip rows ≡ collapse next rows)
        → visit row g (λ o. walk_items o rows) ≡ place last row g (λ o. collapse o rows)
    visit-eq-place last row rows content l later h shut ih =
        ap (λ r. key_item row ∷ r) (ih none none (inl (refl, refl)))
    visit-eq-place last row rows (rolled cp) l later h shut ih = rw (shut cp refl) (
        ap (λ r. group_item cp ∷ r)
          (ih (successor cp) (some cp) (inr (opens-Joins row rows cp l later h))))

    joined-Joins :
        (skip last : Option Text) (row : T) (rows : List T)
        → Joins skip last (row ∷ rows)
        → Joins skip last rows
    joined-Joins skip last row rows j = record {
      first = j.first;
      cp = j.cp;
      after = j.after;
      grouped = j.grouped;
      listed = j.listed;
      skips = j.skips;
      opened = j.opened;
      bound = j.bound;
      ahead = j.ahead.1;
    }

    -- A key below the successor belongs to the open group, and one past it to another.
    skipped-rolled :
        (skip last : Option Text) (row : T) (rows : List T) (j : Joins skip last (row ∷ rows))
        → IsListed row
        → text_ltb (key_of row) j.after ≡ true
        → group_of row ≡ rolled j.cp
    skipped-rolled skip last row rows j l lt =
        let str =
          (rolled-ahead (key_of j.first) params.prefix params.delimiter j.cp j.grouped).1
            j.listed.0 in
        in_group (key_of j.first) params.prefix params.delimiter j.cp j.after (key_of row)
          j.listed.1 j.grouped j.bound str l.0 j.ahead.0 lt

    past-shut :
        (skip last : Option Text) (row : T) (rows : List T) (j : Joins skip last (row ∷ rows))
        → IsListed row
        → text_ltb (key_of row) j.after ≡ false
        → (cp : Text) → group_of row ≡ rolled cp
        → is_open last cp ≡ false
    past-shut skip last row rows j l ge cp h = elim (Bool-cases (text_eq j.cp cp)) [
      | inr other ↦ rw j.opened other
      | inl same ↦
          let again : group_of row ≡ rolled j.cp = rw ((text_eq_iff j.cp cp).0 same) h in
          cc (
            ge,
            rolled-below (key_of row) params.prefix params.delimiter j.cp j.after again j.bound l.0,
          )
    ]

    joined-eq-collapse :
        (skip last : Option Text) (row : T) (rows : List T) (j : Joins skip last (row ∷ rows))
        → IsListed row
        → text_ltb (key_of row) j.after ≡ true
        → place last row (group_of row) (λ o. collapse o rows) ≡ collapse last rows
    joined-eq-collapse skip last row rows j l lt =
        rw (skipped-rolled skip last row rows j l lt, j.opened, text_eq_refl j.cp) refl

    pub walk_items-collapse :
        (skip last : Option Text) (rows : List T)
        → All IsListed rows
        → Ascending key_of rows
        → IsJoined skip last rows
        → walk_items skip rows ≡ collapse last rows
    unfolding walk_items collapse
    walk_items-collapse skip last [] listed asc s = refl
    walk_items-collapse skip last (row ∷ rows) (l, listed) (later, asc) (inl (e, q)) =
        rw (e, q)
          (visit-eq-place none row rows (group_of row) l later refl (λ cp h. refl)
            (λ s n. walk_items-collapse s n rows listed asc))
    walk_items-collapse skip last (row ∷ rows) (l, listed) (later, asc) (inr j) =
        elim (Bool-cases (text_ltb (key_of row) j.after)) [
          | inl lt ↦
              let out : is_skipped skip (key_of row) ≡ true = rw j.skips lt in
              rw out (
                walk_items-collapse skip last rows listed asc
                  (inr (joined-Joins skip last row rows j))
                ∙ sym (joined-eq-collapse skip last row rows j l lt))
          | inr ge ↦
              rw (j.skips, ge)
                (visit-eq-place last row rows (group_of row) l later refl
                  (past-shut skip last row rows j l ge)
                  (λ s n. walk_items-collapse s n rows listed asc))
        ]
