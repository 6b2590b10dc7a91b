-- ===== src/Base/Split.antt =====
-- Laws of splitting at a separator: what the pieces hold, how they add up, and joining them again.
use Prim.Native.Nat.{ℕ}
use mathlib.Core.Path.{◌≡◌, refl, ap, ap₂, sym, ◌∙◌}
use mathlib.Core.Logic.{inl, inr}
use mathlib.Core.Bool.{false, not}
use mathlib.Core.List.{List, [], ◌∷◌, ◌++◌}
use cubby.Base.Bools.{◌==◌, Bool-cases, ==_sound, ==_refl}
use cubby.Base.Lists.{is_empty, filter, All}
use cubby.Base.Strings.{Text}
use cubby.Base.Str.{split, onto_first, join}

-- No character of a text is the separator.
abbrev pub Without : ℕ → Text → Type 0
Without sep s = All (λ c. (c == sep) ≡ false) s

-- The pieces of a text that are not empty.
abbrev pub nonempty : List Text → List Text
nonempty pieces = filter (λ piece. not (is_empty piece)) pieces

-- There is a first piece.
split-cons : (sep : ℕ) (s : Text) → (p : Text) × (ps : List Text) × (split sep s ≡ p ∷ ps)
unfolding split
split-cons sep [] = ([], [], refl)
split-cons sep (c ∷ s) = elim (Bool-cases (c == sep)) [
  | inl e ↦ ([], split sep s, rw e refl)
  | inr e ↦ let (p, ps, h) = split-cons sep s in (c ∷ p, ps, rw (e, h) refl)
]

onto_first-append :
    (c : ℕ) (s : Text) (sep : ℕ) (b : List Text)
    → onto_first c (split sep s ++ b) ≡ onto_first c (split sep s) ++ b
onto_first-append c s sep b = let (p, ps, h) = split-cons sep s in rw h refl

pub split-append : (sep : ℕ) (s t : Text) → split sep (s ++ sep ∷ t) ≡ split sep s ++ split sep t
unfolding split
split-append sep [] t = rw (==_refl sep) refl
split-append sep (c ∷ s) t = elim (Bool-cases (c == sep)) [
  | inl e ↦ rw e (ap (λ r. [] ∷ r) (split-append sep s t))
  | inr e ↦ rw (e, split-append sep s t) (onto_first-append c s sep (split sep t))
]

pub split-Without : (sep : ℕ) (s : Text) → Without sep s → split sep s ≡ s ∷ []
unfolding split
split-Without sep [] h = refl
split-Without sep (c ∷ s) (e, h) = rw (e, split-Without sep s h) refl

-- The pieces keep what holds of the characters, and none has the separator.
onto_first-All :
    (P : ℕ → Type 0) (c : ℕ) (pieces : List Text)
    → P c
    → All (All P) pieces
    → All (All P) (onto_first c pieces)
onto_first-All P c [] p h = ((p, tt), tt)
onto_first-All P c (s ∷ pieces) p (q, h) = ((p, q), h)

pub split-All : (P : ℕ → Type 0) (sep : ℕ) (s : Text) → All P s → All (All P) (split sep s)
unfolding split
split-All P sep [] h = (tt, tt)
split-All P sep (c ∷ s) (p, h) = elim (Bool-cases (c == sep)) [
  | inl e ↦ rw e (tt, split-All P sep s h)
  | inr e ↦ rw e (onto_first-All P c (split sep s) p (split-All P sep s h))
]

pub split-All-Without : (sep : ℕ) (s : Text) → All (Without sep) (split sep s)
unfolding split
split-All-Without sep [] = (tt, tt)
split-All-Without sep (c ∷ s) = elim (Bool-cases (c == sep)) [
  | inl e ↦ rw e (tt, split-All-Without sep s)
  | inr e ↦
      rw e (onto_first-All (λ d. (d == sep) ≡ false) c (split sep s) e (split-All-Without sep s))
]

-- Joining the pieces gives the text again.
join-onto_first :
    (sep : Text) (c : ℕ) (p : Text) (ps : List Text)
    → join sep (onto_first c (p ∷ ps)) ≡ c ∷ join sep (p ∷ ps)
unfolding join
join-onto_first sep c p [] = refl
join-onto_first sep c p (q ∷ ps) = refl

join-nil :
    (sep : Text) (p : Text) (ps : List Text) → join sep ([] ∷ p ∷ ps) ≡ sep ++ join sep (p ∷ ps)
unfolding join
join-nil sep p ps = refl

pub join-split : (sep : ℕ) (s : Text) → join (sep ∷ []) (split sep s) ≡ s
unfolding split join
join-split sep [] = refl
join-split sep (c ∷ s) =
    let (p, ps, h) = split-cons sep s in
    let rest = rw h at (join-split sep s) in
    elim (Bool-cases (c == sep)) [
      | inl e ↦
          rw (e, h) (join-nil (sep ∷ []) p ps ∙ ap₂ (λ x y. x ∷ y) (sym (==_sound c sep e)) rest)
      | inr e ↦ rw (e, h) (join-onto_first (sep ∷ []) c p ps ∙ ap (λ r. c ∷ r) rest)
    ]
