-- ===== src/Http/Headers.antt =====
-- What is read from the headers of an answer after others were set.
use cubby.Base.{
  ◌≡◌, refl, ap, ◌∙◌, inl, inr, false, not, Option, none, some, List, [], ◌∷◌, ◌++◌, Text, text_eq,
  text_eq_iff, text_eq_refl, filter, Bool-cases,
}
use cubby.Http.{get_header, insert_header}

abbrev or_later : Option Text → Option Text → Option Text
or_later none later = later
or_later (some value) later = some value

pub get_header-append :
    (name : Text) (headers later : List (Text × Text))
    → get_header name (headers ++ later)
      ≡ or_later (get_header name headers) (get_header name later)
unfolding get_header
get_header-append name [] later = refl
get_header-append name ((n, value) ∷ headers) later = elim (Bool-cases (text_eq n name)) [
  | inl e ↦ rw e refl
  | inr e ↦ rw e (get_header-append name headers later)
]

removed_none :
    (name : Text) (headers : List (Text × Text))
    → get_header name (filter (λ h. not (text_eq h.0 name)) headers) ≡ none
unfolding get_header
removed_none name [] = refl
removed_none name ((n, value) ∷ headers) = elim (Bool-cases (text_eq n name)) [
  | inl e ↦ rw e (removed_none name headers)
  | inr e ↦ rw (e, e) (removed_none name headers)
]

pub get_header-insert_header :
    (name value : Text) (headers : List (Text × Text))
    → get_header name (insert_header name value headers) ≡ some value
unfolding insert_header get_header
get_header-insert_header name value headers =
    get_header-append name (filter (λ h. not (text_eq h.0 name)) headers) ((name, value) ∷ [])
    ∙ rw (removed_none name headers, text_eq_refl name) refl

kept_other :
    (name other : Text) (headers : List (Text × Text))
    → text_eq other name ≡ false
    → get_header name (filter (λ h. not (text_eq h.0 other)) headers) ≡ get_header name headers
unfolding get_header
kept_other name other [] h = refl
kept_other name other ((n, value) ∷ headers) h = elim (Bool-cases (text_eq n other)) [
  | inl e ↦
      let same = (text_eq_iff n other).0 e in
      let differs : text_eq n name ≡ false = ap (λ x. text_eq x name) same ∙ h in
      rw (e, differs) (kept_other name other headers h)
  | inr e ↦ elim (Bool-cases (text_eq n name)) [
    | inl f ↦ rw (e, f) refl
    | inr f ↦ rw (e, f) (kept_other name other headers h)
  ]
]

or_none : (o : Option Text) → or_later o none ≡ o
or_none none = refl
or_none (some value) = refl

pub insert_header-other :
    (name other value : Text) (headers : List (Text × Text))
    → text_eq other name ≡ false
    → get_header name (insert_header other value headers) ≡ get_header name headers
unfolding insert_header get_header
insert_header-other name other value headers h =
    get_header-append name (filter (λ x. not (text_eq x.0 other)) headers) ((other, value) ∷ [])
    ∙ rw (kept_other name other headers h, h) (or_none (get_header name headers))
