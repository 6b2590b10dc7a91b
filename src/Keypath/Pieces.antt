-- ===== src/Keypath/Pieces.antt =====
-- The pieces of a path that is pushed together, and the components that it is read as.
use cubby.Base.{
  ℕ, ◌<◌, ◌≡◌, ◌≢◌, ◌⊎◌, refl, ap, inl, inr, false, List, [], ◌∷◌, ◌++◌, map, append_assoc,
  append-nil, arith, Text, codes, text_eq, text_eq_iff, starts_with, ◌==◌, Bool-cases, All,
  is_empty, ==_sound,
}
use cubby.Base.Str.{split, trim_end}
use cubby.Base.Split.{Without, nonempty, split-append, split-Without}
use cubby.Keypath.{
  normal, components_of, leading, components, needs_separator, push, normals, hex_upper,
}
use cubby.Keypath.Encoding.{Encodes, end, plain, escape, IsTrimmed}

abbrev pub pieces : Text → List Text
pieces s = nonempty (split b'/' s)

filter-append : (a b : List Text) → nonempty (a ++ b) ≡ nonempty a ++ nonempty b
filter-append [] b = refl
filter-append ([] ∷ a) b = filter-append a b
filter-append ((c ∷ s) ∷ a) b = ap (λ r. (c ∷ s) ∷ r) (filter-append a b)

pieces-append : (s t : Text) → pieces (s ++ b'/' ∷ t) ≡ pieces s ++ pieces t
pieces-append s t = rw (split-append b'/' s t) (filter-append (split b'/' s) (split b'/' t))

-- A path that needs no separator is empty or ends in one.
ends_in_separator :
    (path : Text)
    → needs_separator path ≡ false
    → (path ≡ []) ⊎ ((before : Text) × (path ≡ before ++ b'/' ∷ []))
unfolding needs_separator
ends_in_separator [] h = inl refl
ends_in_separator (c ∷ []) h = inr ([], ap (λ x. x ∷ []) (==_sound c b'/' (ground arith)))
ends_in_separator (c ∷ d ∷ path) h = elim (ends_in_separator (d ∷ path) h) [
  | inl e ↦ absurd cc
  | inr (before, e) ↦ inr (c ∷ before, ap (λ r. c ∷ r) e)
]

pub relative_piece : (piece : Text) → Without b'/' piece → starts_with piece (codes "/") ≡ false
unfolding starts_with
relative_piece [] h = refl
relative_piece (c ∷ s) (e, h) = rw e refl

pub pieces_nil : pieces [] ≡ []
unfolding split
pieces_nil = refl

pieces_bare :
    (path piece : Text)
    → needs_separator path ≡ false
    → pieces (path ++ piece) ≡ pieces path ++ pieces piece
pieces_bare path piece h = elim (ends_in_separator path h) [
  | inl e ↦ rw (e, pieces_nil) refl
  | inr (before, e) ↦
      rw
        (
          e,
          append_assoc before (b'/' ∷ []) piece,
          pieces-append before piece,
          pieces-append before [],
          pieces_nil,
          append-nil (pieces before),
        )
        refl
]

-- `push` adds the piece that it is given to those of the path, and a relative path stays so.
pub pieces-push :
    (path piece : Text)
    → Without b'/' piece
    → pieces (push path piece) ≡ pieces path ++ pieces piece
unfolding push
pieces-push path piece h = rw (relative_piece piece h) (elim (Bool-cases (needs_separator path)) [
  | inl e ↦ rw e (pieces-append path piece)
  | inr e ↦ rw e (pieces_bare path piece e)
])

needs_separator_nil : needs_separator [] ≡ false
unfolding needs_separator
needs_separator_nil = refl

relative-append :
    (path s : Text)
    → starts_with path (codes "/") ≡ false
    → starts_with s (codes "/") ≡ false ⊎ (path ≢ [])
    → starts_with (path ++ s) (codes "/") ≡ false
unfolding starts_with
relative-append [] s r (inl h) = h
relative-append [] s r (inr h) = absurd (h refl)
relative-append (c ∷ path) s r h = r

pub relative-push :
    (path piece : Text)
    → starts_with path (codes "/") ≡ false
    → Without b'/' piece
    → starts_with (push path piece) (codes "/") ≡ false
unfolding push
relative-push path piece r h =
    let rel = relative_piece piece h in
    rw rel (elim (Bool-cases (needs_separator path)) [
      | inl e ↦
          rw e
            (relative-append path (b'/' ∷ piece) r (inr (λ q. cc (needs_separator_nil, rw q at e))))
      | inr e ↦ rw e (relative-append path piece r (inl rel))
    ])

-- What the loop over the segments leaves: the pieces before, then each segment that is not empty, encoded.
pub IsName : Text → Type 0
IsName name =
    (text_eq name (codes ".") ≡ false)
    × (text_eq name (codes "..") ≡ false)
    × (is_empty name ≡ false)

not_text : (name other : Text) → (name ≢ other) → text_eq name other ≡ false
not_text name other h = elim (Bool-cases (text_eq name other)) [
  | inl e ↦ absurd (h ((text_eq_iff name other).0 e))
  | inr e ↦ e
]

pub not_empty : (name : Text) → (name ≢ []) → is_empty name ≡ false
not_empty [] k = absurd (k refl)
not_empty (c ∷ name) k = refl

pub trimmed-IsName : (name : Text) → IsTrimmed name → (name ≢ []) → IsName name
unfolding IsName trim_end
trimmed-IsName name h k = (
  not_text name (codes ".") (λ e. cc (rw e at h)),
  not_text name (codes "..") (λ e. cc (rw e at h)),
  not_empty name k,
)

-- An escaped text has a separator only where the bytes have one.
hex-slash : (n : ℕ) → n < 16 → (hex_upper n == b'/') ≡ false
hex-slash n h = ground arith

pub Encodes-Without : {s t : Text} → Encodes s t → Without b'/' s → Without b'/' t
Encodes-Without end h = tt
Encodes-Without (plain c small p e) (q, h) = (q, Encodes-Without e h)
Encodes-Without (escape b hi lo h l q e) (r, k) =
    (refl, (hex-slash hi h, (hex-slash lo l, Encodes-Without e k)))

-- What the components of a relative path are whose pieces are names.
components_of-names :
    (ps : List Text) → All IsName (nonempty ps) → components_of ps ≡ map normal (nonempty ps)
unfolding components_of IsName text_eq
components_of-names [] h = refl
components_of-names ([] ∷ ps) h = components_of-names ps h
components_of-names ((c ∷ s) ∷ ps) ((dot, dots, full), h) =
    rw (dot, dots) (ap (λ r. normal (c ∷ s) ∷ r) (components_of-names ps h))

leading-names : (ps : List Text) → All IsName (nonempty ps) → leading ps ≡ map normal (nonempty ps)
unfolding IsName text_eq
leading-names [] h = refl
leading-names ([] ∷ ps) h = components_of-names ([] ∷ ps) h
leading-names ((c ∷ s) ∷ ps) ((dot, dots, full), h) =
    rw dot (components_of-names ((c ∷ s) ∷ ps) ((dot, dots, full), h))

pub components-names :
    (path : Text)
    → starts_with path (codes "/") ≡ false
    → All IsName (pieces path)
    → components path ≡ map normal (pieces path)
unfolding components
components-names path r h = rw r (leading-names (split b'/' path) h)

pub normals-normal : (names : List Text) → normals (map normal names) ≡ names
normals-normal [] = refl
normals-normal (n ∷ names) = ap (λ r. n ∷ r) (normals-normal names)

pub pieces_single : (s : Text) → Without b'/' s → (s ≢ []) → pieces s ≡ s ∷ []
pieces_single s w h = rw (split-Without b'/' s w, not_empty s h) refl
