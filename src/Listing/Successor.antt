-- ===== src/Listing/Successor.antt =====
-- `successor` bounds the range of a prefix exactly.
use mathlib.Core.List.{reverse, reverse-cons, reverse-append}
use cubby.Base.{
  ◌≢◌, ℕ, ◌≤◌, ◌<◌, ◌≡◌, refl, ap, ◌∙◌, ◌⊎◌, inl, inr, Bool, true, false, not, ◌&&◌, Option, none,
  some, [], ◌∷◌, ◌++◌, append-nil, Bool-cases, arith, Text, text_ltb, starts_with,
  starts_with-append, starts_with-split, ltb, leb, Option-cases, All,
}
use cubby.Base.Order.{ltb_irrefl, ltb_asymm}
use cubby.Listing.{next_scalar, pop_loop, successor}

-- A Unicode scalar value, and a text of them: what a Rust `str` holds.
abbrev pub IsScalar : ℕ → Type 0
IsScalar c = (c < 0x110000) × ((c < 0xD800) ⊎ (0xE000 ≤ c))

abbrev pub IsStr : Text → Type 0
IsStr s = All IsScalar s

-- `next_scalar` skips no scalar: between `c` and its next one there is none.
pub next_scalar-gap :
    (c n d : ℕ) → next_scalar c ≡ some n → IsScalar c → IsScalar d → leb n d ≡ ltb c d
unfolding next_scalar
next_scalar-gap c n d h s t = ground arith

pub next_scalar-none : (c d : ℕ) → next_scalar c ≡ none → IsScalar c → IsScalar d → ltb c d ≡ false
unfolding next_scalar
next_scalar-none c d h s t = ground arith

pub next_scalar-IsScalar : (c n : ℕ) → next_scalar c ≡ some n → IsScalar c → IsScalar n
unfolding next_scalar
next_scalar-IsScalar c n h s = ground arith

-- The loop from the front: a carry out of the rest raises the character before it.
abbrev raise_last : ℕ → Option Text → Option Text
raise_last c none = elim (next_scalar c) [ none ↦ none | some n ↦ some (n ∷ []) ]
raise_last c (some rest) = some (c ∷ rest)

bump : Text → Option Text
bump [] = none
bump (c ∷ s) = raise_last c (bump s)

pop_loop-append : (xs : Text) (c : ℕ) → pop_loop (xs ++ c ∷ []) ≡ raise_last c (pop_loop xs)
unfolding pop_loop
pop_loop-append [] c = ground arith
pop_loop-append (x ∷ xs) c = elim (Option-cases (next_scalar x)) [
  | inl e ↦ rw (e, pop_loop) (pop_loop-append xs c)
  | inr (n, e) ↦ rw (e, pop_loop) (ap some (rw reverse-append refl))
]

successor-eq-bump : (s : Text) → successor s ≡ bump s
unfolding successor bump pop_loop
successor-eq-bump [] = refl
successor-eq-bump (c ∷ s) =
    rw reverse-cons (pop_loop-append (reverse s) c ∙ ap (raise_last c) (successor-eq-bump s))

mutual
  unfolding bump starts_with text_ltb

  bump-none_range :
      (p k : Text) → bump p ≡ none → IsStr p → IsStr k → starts_with k p ≡ not (text_ltb k p)
  bump-none_range [] [] h sp sk = refl
  bump-none_range [] (d ∷ t) h sp sk = refl
  bump-none_range (c ∷ s) [] h sp sk = refl
  bump-none_range (c ∷ s) (d ∷ t) h (sc, sp) (sd, sk) = elim (Option-cases (bump s)) [
    | inl e ↦ ground (arith, bump-none_range s t e sp sk, next_scalar-none c d)
    | inr (r, e) ↦ cc e
  ]

bump-range :
    (p u k : Text)
    → bump p ≡ some u
    → IsStr p
    → IsStr k
    → starts_with k p ≡ (not (text_ltb k p) && text_ltb k u)
unfolding bump starts_with text_ltb
bump-range [] u k h sp sk = cc
bump-range (c ∷ s) u [] h sp sk = refl
bump-range (c ∷ s) u (d ∷ t) h (sc, sp) (sd, sk) = elim (Option-cases (bump s)) [
  | inr (r, e) ↦ ground (arith, bump-range s r t e sp sk)
  | inl e ↦ elim (Option-cases (next_scalar c)) [
    | inl q ↦ ground arith
    | inr (n, q) ↦ ground (arith, bump-none_range s t e sp sk, next_scalar-gap c n d q sc sd)
  ]
]

-- The range `[prefix, upper)`, open above where there is no upper bound.
abbrev pub in_range : Text → Option Text → Text → Bool
in_range prefix none key = not (text_ltb key prefix)
in_range prefix (some upper) key = not (text_ltb key prefix) && text_ltb key upper

-- The keys that begin with a prefix are those from the prefix up to its successor, and all from
-- the prefix on where it has none.
pub successor-range :
    (prefix key : Text)
    → IsStr prefix
    → IsStr key
    → starts_with key prefix ≡ in_range prefix (successor prefix) key
successor-range p k sp sk = rw successor-eq-bump (within (bump p) refl)
  where
    within : (o : Option Text) → bump p ≡ o → starts_with k p ≡ in_range p o k
    within none e = bump-none_range p k e sp sk
    within (some u) e = bump-range p u k e sp sk

bump-IsStr : (p u : Text) → bump p ≡ some u → IsStr p → IsStr u
unfolding bump
bump-IsStr [] u h sp = cc
bump-IsStr (c ∷ s) u h (sc, sp) = elim (Option-cases (bump s)) [
  | inr (r, e) ↦ let same : u ≡ c ∷ r = ground arith in rw same (sc, bump-IsStr s r e sp)
  | inl e ↦ elim (Option-cases (next_scalar c)) [
    | inl q ↦ cc (e, q)
    | inr (n, q) ↦
        let same : u ≡ n ∷ [] = ground arith in rw same (next_scalar-IsScalar c n q sc, tt)
  ]
]

pub successor-IsStr : (p u : Text) → successor p ≡ some u → IsStr p → IsStr u
successor-IsStr p u h sp = bump-IsStr p u (rw successor-eq-bump at h) sp

-- The range of a prefix that has a successor.
pub bounded-range :
    (p u k : Text)
    → successor p ≡ some u
    → IsStr p
    → IsStr k
    → starts_with k p ≡ (not (text_ltb k p) && text_ltb k u)
bounded-range p u k h sp sk = rw h at (successor-range p k sp sk)

-- A key that begins with `p` is below the successor of `p`.
pub lt-successor :
    (p u r : Text) → successor p ≡ some u → IsStr p → IsStr (p ++ r) → text_ltb (p ++ r) u ≡ true
lt-successor p u r h sp sk =
    ground (arith, bounded-range p u (p ++ r) h sp sk, starts_with-append p r)

-- A text above all that begin with the prefix does not begin with it.
above-outside :
    (p v : Text)
    → IsStr p
    → IsStr v
    → ((r : Text) → IsStr (p ++ r) → text_ltb (p ++ r) v ≡ true)
    → (text_ltb p v ≡ true) × (starts_with v p ≡ false)
above-outside p v sp sv above = (
  rw append-nil at (above [] (rw append-nil sp)),
  elim (Bool-cases (starts_with v p)) [
    | inr e ↦ e
    | inl begins ↦
        let (r, same) = starts_with-split v p begins in
        let self : text_ltb v v ≡ true = rw (← same) at (above r (rw (← same) sv)) in
        cc (self, ltb_irrefl v)
  ],
)

-- If a text of scalar values is above every text that begins with the prefix, the prefix has a
-- successor, which is the least such text: it is a text of scalar values, each text that begins with
-- the prefix is below it, and the given bound is not.
pub successor_least :
    (p v s : Text)
    → IsStr p
    → IsStr v
    → IsStr (p ++ s)
    → ((r : Text) → IsStr (p ++ r) → text_ltb (p ++ r) v ≡ true)
    → (u : Text) × (successor p ≡ some u)
      × IsStr u
      × (text_ltb (p ++ s) u ≡ true)
      × (text_ltb v u ≡ false)
successor_least p v s sp sv ss above =
    let (p-lt-v, outside) = above-outside p v sp sv above in
    elim (Option-cases (successor p)) [
      | inl e ↦
          let range = rw e at (successor-range p v sp sv) in
          ground (arith, range, ltb_asymm p v p-lt-v)
      | inr (u, e) ↦ (
        u,
        e,
        successor-IsStr p u e sp,
        lt-successor p u s e sp ss,
        ground (arith, bounded-range p u v e sp sv, ltb_asymm p v p-lt-v),
      )
    ]

-- A text that ends in one with a successor has a successor.
bump-append : (x d : Text) → bump d ≢ none → bump (x ++ d) ≢ none
unfolding bump
bump-append [] d h = h
bump-append (c ∷ x) d h = ground (arith, bump-append x d h)

pub successor-append : (x d : Text) → successor d ≢ none → successor (x ++ d) ≢ none
successor-append x d h = rw successor-eq-bump (bump-append x d (rw successor-eq-bump at h))
