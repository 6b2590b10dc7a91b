-- ===== src/Listing/Groups.antt =====
-- The keys of one delimiter group lie together: from a key of the group up to the successor of
-- its common prefix every key is rolled up into the same group.
use cubby.Base.{
  ◌≢◌, ℕ, ◌+◌, ◌≤◌, ◌≡◌, sym, ap, ◌∙◌, inl, inr, true, false, Option, none, some, [], ◌∷◌, ◌++◌,
  append_assoc, arith, Text, text_ltb, starts_with, Bool-cases, Option-cases, length, take,
  drop-length, take-length, drop, length-append, starts_with-append, starts_with-split,
}
use cubby.Listing.{rolled, classify, find_from, successor}
use cubby.Listing.Successor.{IsStr, bounded-range, successor-append}

-- Only the first characters decide whether a text begins with another.
starts_with-front : (x y p : Text) → length p ≤ length x → starts_with (x ++ y) p ≡ starts_with x p
unfolding starts_with
starts_with-front x y [] h = ground arith
starts_with-front [] y (c ∷ p) h = absurd (omega arith)
starts_with-front (d ∷ x) y (c ∷ p) h = ground (arith, starts_with-front x y p (omega arith))

-- Where the first delimiter stands does not depend on the text behind it.
record Found (s delim : Text) (i j : ℕ) : Type 0 where
  before : Text
  after : Text
  splits : s ≡ before ++ (delim ++ after)
  place : j ≡ i + length before
  same : (z : Text) → find_from (before ++ (delim ++ z)) delim i ≡ some j

find_from-here :
    (c : ℕ) (s : Text) (e : ℕ) (d : Text) (i j : ℕ)
    → starts_with (c ∷ s) (e ∷ d) ≡ true
    → find_from (c ∷ s) (e ∷ d) i ≡ some j
    → Found (c ∷ s) (e ∷ d) i j
unfolding find_from
find_from-here c s e d i j begins h =
    let (rest, split) = starts_with-split (c ∷ s) (e ∷ d) begins in
    let here : i ≡ j = cc (rw (begins, find_from) at h) in
    record {
      before = [];
      after = rest;
      splits = split;
      place = omega arith;
      same = λ z. rw (starts_with-append (e ∷ d) z, here);
    }

-- A delimiter that does not begin here does not begin here with another text behind it either.
not_here :
    (c : ℕ) (before after d : Text) (s : Text)
    → s ≡ before ++ (d ++ after)
    → starts_with (c ∷ s) d ≡ false
    → (z : Text) → starts_with (c ∷ (before ++ (d ++ z))) d ≡ false
not_here c before after d s split other z =
    let front = c ∷ (before ++ d) in
    let long : length d ≤ length front = omega (arith, length-append before d) in
    let with_after : starts_with (front ++ after) d ≡ false =
      rw (append_assoc before d after, ← split) other in
    rw (← append_assoc before d z)
      (starts_with-front front z d long ∙ sym (starts_with-front front after d long) ∙ with_after)

find_from-Found :
    (s : Text) (e : ℕ) (d : Text) (i j : ℕ) → find_from s (e ∷ d) i ≡ some j → Found s (e ∷ d) i j
unfolding find_from starts_with
find_from-Found [] e d i j h = cc h
find_from-Found (c ∷ s) e d i j h = elim (Bool-cases (starts_with (c ∷ s) (e ∷ d))) [
  | inl begins ↦ find_from-here c s e d i j begins h
  | inr other ↦
      let f = find_from-Found s e d (i + 1) j (ground arith) in
      record {
        before = c ∷ f.before;
        after = f.after;
        splits = ap (λ t. c ∷ t) f.splits;
        place = omega (arith, f.place);
        same = λ z.
            let late = not_here c f.before f.after (e ∷ d) s f.splits other z in
            ground (arith, f.same z);
      }
]

-- The common prefix: the prefix, what stands before the delimiter, and the delimiter.
record Rolled (key prefix delim cp : Text) : Type 0 where
  before : Text
  shape : cp ≡ prefix ++ (before ++ delim)
  same : (z : Text) → find_from (before ++ (delim ++ z)) delim 0 ≡ some (length before)

take-shape :
    (prefix before delim after : Text) (j : ℕ)
    → j ≡ 0 + length before
    → take (length prefix + j + length delim) (prefix ++ (before ++ (delim ++ after)))
      ≡ prefix ++ (before ++ delim)
take-shape prefix before delim after j e =
    let front = prefix ++ (before ++ delim) in
    let size : length prefix + j + length delim ≡ length front =
      omega (arith, length-append prefix (before ++ delim), length-append before delim) in
    let whole : prefix ++ (before ++ (delim ++ after)) ≡ front ++ after = simp append_assoc in
    rw (size, whole) (take-length front after)

classify-Rolled :
    (key prefix : Text) (e : ℕ) (d cp : Text)
    → starts_with key prefix ≡ true
    → classify key prefix (some (e ∷ d)) ≡ rolled cp
    → Rolled key prefix (e ∷ d) cp
unfolding classify
classify-Rolled key prefix e d cp begins h =
    elim (Option-cases (find_from (drop (length prefix) key) (e ∷ d) 0)) [
      | inl none_found ↦ cc (rw (none_found, classify) at h)
      | inr (j, found) ↦
          let (r, split) = starts_with-split key prefix begins in
          let rest : drop (length prefix) key ≡ r = rw split (drop-length prefix r) in
          let f = find_from-Found r e d 0 j (rw rest at found) in
          let whole : key ≡ prefix ++ (f.before ++ ((e ∷ d) ++ f.after)) =
            split ∙ ap (λ t. prefix ++ t) f.splits in
          let cut : cp ≡ take (length prefix + j + length (e ∷ d)) key =
            cc (rw (found, classify) at h) in
          let zero_add : length f.before ≡ j = omega (arith, f.place) in
          record {
            before = f.before;
            shape =
                cut
                ∙ ap (take (length prefix + j + length (e ∷ d))) whole
                ∙ take-shape prefix f.before (e ∷ d) f.after j f.place;
            same = λ z. rw zero_add (f.same z);
          }
    ]

-- Every text that begins with a common prefix is rolled up into it.
classify-extends :
    (key prefix : Text) (e : ℕ) (d cp z : Text)
    → starts_with key prefix ≡ true
    → classify key prefix (some (e ∷ d)) ≡ rolled cp
    → classify (cp ++ z) prefix (some (e ∷ d)) ≡ rolled cp
unfolding classify
classify-extends key prefix e d cp z begins h =
    let g = classify-Rolled key prefix e d cp begins h in
    let whole : cp ++ z ≡ prefix ++ (g.before ++ ((e ∷ d) ++ z)) = rw g.shape (simp append_assoc) in
    let rest : drop (length prefix) (cp ++ z) ≡ g.before ++ ((e ∷ d) ++ z) =
      rw whole (drop-length prefix _) in
    let found : find_from (drop (length prefix) (cp ++ z)) (e ∷ d) 0 ≡ some (length g.before) =
      rw rest (g.same z) in
    rw found (
      ap rolled (
        rw whole
          (take-shape prefix g.before (e ∷ d) z (length g.before) (omega arith) ∙ sym g.shape)))

-- Between a common prefix and its successor every key belongs to the group.
pub in_group :
    (key prefix : Text) (delimiter : Option Text) (cp after other : Text)
    → starts_with key prefix ≡ true
    → classify key prefix delimiter ≡ rolled cp
    → successor cp ≡ some after
    → IsStr cp
    → IsStr other
    → text_ltb other cp ≡ false
    → text_ltb other after ≡ true
    → classify other prefix delimiter ≡ rolled cp
unfolding classify
in_group key prefix none cp after other begins h s p q ge lt = cc h
in_group key prefix (some []) cp after other begins h s p q ge lt = cc h
in_group key prefix (some (e ∷ d)) cp after other begins h s p q ge lt =
    let inside : starts_with other cp ≡ true = ground (arith, bounded-range cp after other s p q) in
    let (z, split) = starts_with-split other cp inside in
    rw split (classify-extends key prefix e d cp z begins h)

-- A group has a successor if its delimiter has one.
pub rolled-successor :
    (key prefix d cp : Text)
    → starts_with key prefix ≡ true
    → classify key prefix (some d) ≡ rolled cp
    → successor d ≢ none
    → successor cp ≢ none
unfolding classify
rolled-successor key prefix [] cp begins h s = cc h
rolled-successor key prefix (e ∷ d) cp begins h s =
    let g = classify-Rolled key prefix e d cp begins h in
    rw (g.shape, ← append_assoc prefix g.before (e ∷ d))
      (successor-append (prefix ++ g.before) (e ∷ d) s)
