-- ===== src/Cors/Matching.antt =====
-- When an origin is covered, what the matching grants, and what a valid configuration is.
use cubby.Base.{
  ℕ, ◌+◌, ◌≤◌, ◌≡◌, ◌↔◌, refl, sym, ap, ◌∙◌, inl, inr, Bool, true, Option, none, some, [], ◌∷◌,
  ◌++◌, Text, append_assoc, append-nil, codes, leb, ◌==◌, ==_sound, ==_refl, if◌then◌else◌, length,
  length-append, text_eq, text_eq_iff, text_eq_refl, starts_with, ends_with, starts_with-append,
  starts_with-split, ends_with-append, ends_with-split, Bool-cases, Option-cases, arith, &&_left,
  &&_right,
}
use cubby.Base.Str.{split_once}
use cubby.Base.Split.{Without}
use cubby.Cors.{matches_split, origin_matches}

-- What `split_once` finds: the first separator, or that there is none.
split_once-some :
    (sep : ℕ) (s a b : Text) → split_once sep s ≡ some (a, b) → (s ≡ a ++ sep ∷ b) × Without sep a
unfolding split_once
split_once-some sep [] a b h = cc
split_once-some sep (c ∷ s) a b h = elim (Bool-cases (c == sep)) [
  | inl e ↦
      let k = rw e at h in
      let q : a ≡ [] = cc in let r : b ≡ s = cc in rw (q, r, ==_sound c sep e) (refl, tt)
  | inr e ↦ elim (Option-cases (split_once sep s)) [
    | inl n ↦ absurd (cc (rw (e, n) at h))
    | inr ((x, y), f) ↦
        let k = rw (e, f) at h in
        let (q, w) = split_once-some sep s x y f in
        let qa : a ≡ c ∷ x = cc in let qb : b ≡ y = cc in rw (qa, qb) (ap (λ r. c ∷ r) q, (e, w))
  ]
]

split_once-none : (sep : ℕ) (s : Text) → split_once sep s ≡ none → Without sep s
unfolding split_once
split_once-none sep [] h = tt
split_once-none sep (c ∷ s) h = elim (Bool-cases (c == sep)) [
  | inl e ↦ absurd (cc (rw e at h))
  | inr e ↦ elim (Option-cases (split_once sep s)) [
    | inl n ↦ (e, split_once-none sep s n)
    | inr ((x, y), f) ↦ absurd (cc (rw (e, f) at h))
  ]
]

pub split_once-append :
    (sep : ℕ) (a b : Text) → Without sep a → split_once sep (a ++ sep ∷ b) ≡ some (a, b)
unfolding split_once
split_once-append sep [] b h = rw (==_refl sep) refl
split_once-append sep (c ∷ a) b (e, h) = rw (e, split_once-append sep a b h) refl

split_once-Without : (sep : ℕ) (s : Text) → Without sep s → split_once sep s ≡ none
unfolding split_once
split_once-Without sep [] h = refl
split_once-Without sep (c ∷ s) (e, h) = rw (e, split_once-Without sep s h) refl

-- How an `AllowedOrigins` entry covers an origin: by one `*` that stands for any text between what
-- stands before it and after it, or with no `*` by being the origin.
pub data Covers : Text → Text → Type 0 where
  wildcard :
      (prefix middle suffix : Text)
      → Without b'*' prefix
      → Covers (prefix ++ b'*' ∷ suffix) (prefix ++ (middle ++ suffix))
  exact : (origin : Text) → Without b'*' origin → Covers origin origin

overlap :
    (prefix rest before suffix : Text)
    → prefix ++ rest ≡ before ++ suffix
    → length prefix ≤ length before
    → (m : Text) × (rest ≡ m ++ suffix)
overlap [] rest before suffix h le = (before, h)
overlap (c ∷ prefix) rest [] suffix h le = let no : ⊥ = omega arith in absurd no
overlap (c ∷ prefix) rest (d ∷ before) suffix h le =
    let below : length prefix ≤ length before = omega arith in
    let same : prefix ++ rest ≡ before ++ suffix = cc in
    overlap prefix rest before suffix same below

fits :
    (prefix before suffix : Text)
    → leb (length prefix + length suffix) (length (before ++ suffix)) ≡ true
    → length prefix ≤ length before
fits prefix before suffix h = ground (arith, length-append before suffix)

-- A text with a prefix and a suffix that do not overlap has a middle.
middle-split :
    (origin prefix suffix : Text)
    → leb (length prefix + length suffix) (length origin) ≡ true
    → starts_with origin prefix ≡ true
    → ends_with origin suffix ≡ true
    → (middle : Text) × (origin ≡ prefix ++ (middle ++ suffix))
middle-split origin prefix suffix long front back =
    let (rest, e) = starts_with-split origin prefix front in
    let (before, f) = ends_with-split origin suffix back in
    let (m, q) =
      overlap prefix rest before suffix (sym e ∙ f) (fits prefix before suffix (rw f at long)) in
    (m, e ∙ ap (λ r. prefix ++ r) q)

matches_split-wildcard :
    (prefix middle suffix : Text) (pattern : Text)
    → matches_split pattern (prefix ++ (middle ++ suffix)) (some (prefix, suffix)) ≡ true
matches_split-wildcard prefix middle suffix pattern =
    let long : leb (length prefix + length suffix) (length (prefix ++ (middle ++ suffix))) ≡ true =
      ground (arith, length-append prefix (middle ++ suffix), length-append middle suffix) in
    let back = ends_with-append (prefix ++ middle) suffix in
    let q = rw (append_assoc prefix middle suffix) at back in
    rw (long, starts_with-append prefix (middle ++ suffix), q) refl

if_same : (b : Bool) → (if b then true else true) ≡ true
if_same b = ground arith

any_origin : (origin : Text) → Covers (codes "*") origin
any_origin origin = rw (append-nil origin) at (wildcard [] origin [] tt)

Covers-matches :
    (pattern origin : Text) → Covers pattern origin → origin_matches pattern origin ≡ true
unfolding origin_matches
Covers-matches pattern origin (wildcard prefix middle suffix w) =
    rw (split_once-append b'*' prefix suffix w, matches_split-wildcard prefix middle suffix pattern)
      (if_same (text_eq (prefix ++ b'*' ∷ suffix) (codes "*")))
Covers-matches pattern origin (exact s w) =
    rw (split_once-Without b'*' s w, text_eq_refl s) (if_same (text_eq s (codes "*")))

split-Covers :
    (pattern origin : Text) (at_star : Option (Text × Text))
    → split_once b'*' pattern ≡ at_star
    → matches_split pattern origin at_star ≡ true
    → Covers pattern origin
split-Covers pattern origin none s h =
    let same = (text_eq_iff pattern origin).0 h in
    rw (sym same) (exact pattern (split_once-none b'*' pattern s))
split-Covers pattern origin (some (prefix, suffix)) s h =
    let (q, w) = split_once-some b'*' pattern prefix suffix s in
    let (m, e) =
      middle-split origin prefix suffix (&&_left _ _ (&&_left _ _ h)) (&&_right _ _ (&&_left _ _ h))
        (&&_right _ _ h) in
    rw (q, e) (wildcard prefix m suffix w)

-- An entry matches an origin exactly if it covers it: the first `*` stands for any text, even none,
-- and what stands before and after it do not overlap in the origin.
pub origin_matches-Covers :
    (pattern origin : Text) → (origin_matches pattern origin ≡ true) ↔ Covers pattern origin
unfolding origin_matches
origin_matches-Covers pattern origin = (
  λ h. elim (Bool-cases (text_eq pattern (codes "*"))) [
    | inl e ↦ rw ((text_eq_iff pattern (codes "*")).0 e) (any_origin origin)
    | inr e ↦ split-Covers pattern origin (split_once b'*' pattern) refl (rw e at h)
  ],
  Covers-matches pattern origin,
)
