-- ===== src/Base/Order.antt =====
-- The order of texts is a strict linear order.
use Prim.Native.Nat.{ℕ}
use mathlib.Core.Path.{◌≡◌, refl}
use mathlib.Core.Logic.{inl, inr}
use mathlib.Core.Bool.{true, false}
use mathlib.Core.List.{[], ◌∷◌, ◌++◌}
use native.Mathlib.Omega.{arith}
use cubby.Base.Bools.{Bool-cases}
use cubby.Base.Strings.{Text, text_ltb}

pub ltb_irrefl : (s : Text) → text_ltb s s ≡ false
unfolding text_ltb
ltb_irrefl [] = refl
ltb_irrefl (x ∷ xs) = ground (arith, ltb_irrefl xs)

pub ltb_trans : (s t u : Text) → text_ltb s t ≡ true → text_ltb t u ≡ true → text_ltb s u ≡ true
unfolding text_ltb
ltb_trans s [] u h k = cc
ltb_trans s (y ∷ t) [] h k = cc
ltb_trans [] (y ∷ t) (z ∷ u) h k = refl
ltb_trans (x ∷ s) (y ∷ t) (z ∷ u) h k = ground (arith, ltb_trans s t u)

-- Texts of which neither is below the other are equal.
pub ltb_connex : (s t : Text) → text_ltb s t ≡ false → text_ltb t s ≡ false → s ≡ t
unfolding text_ltb
ltb_connex [] [] h k = refl
ltb_connex [] (y ∷ t) h k = cc
ltb_connex (x ∷ s) [] h k = cc
ltb_connex (x ∷ s) (y ∷ t) h k = ground (arith, ltb_connex s t)

-- `t ≤ s` and `s < u` give `t < u`, and so on.
pub le_ltb_trans : (t s u : Text) → text_ltb s t ≡ false → text_ltb s u ≡ true → text_ltb t u ≡ true
unfolding text_ltb
le_ltb_trans t s [] h k = cc
le_ltb_trans [] [] (z ∷ u) h k = k
le_ltb_trans [] (y ∷ s) (z ∷ u) h k = refl
le_ltb_trans (x ∷ t) [] (z ∷ u) h k = cc
le_ltb_trans (x ∷ t) (y ∷ s) (z ∷ u) h k = ground (arith, le_ltb_trans t s u)

pub ltb_le_trans : (t s u : Text) → text_ltb t s ≡ true → text_ltb u s ≡ false → text_ltb t u ≡ true
unfolding text_ltb
ltb_le_trans t [] u h k = cc
ltb_le_trans [] (y ∷ s) [] h k = cc
ltb_le_trans (x ∷ t) (y ∷ s) [] h k = cc
ltb_le_trans [] (y ∷ s) (z ∷ u) h k = refl
ltb_le_trans (x ∷ t) (y ∷ s) (z ∷ u) h k = ground (arith, ltb_le_trans t s u)

pub le_trans : (s t u : Text) → text_ltb t s ≡ false → text_ltb u t ≡ false → text_ltb u s ≡ false
le_trans s t u h k = elim (Bool-cases (text_ltb u s)) [
  | inl lt ↦ cc (ltb_le_trans u s t lt h)
  | inr ge ↦ ge
]

-- A strict comparison excludes the other one.
pub ltb_asymm : (s t : Text) → text_ltb s t ≡ true → text_ltb t s ≡ false
ltb_asymm s t h = elim (Bool-cases (text_ltb t s)) [
  | inl lt ↦ cc (ltb_trans s t s h lt, ltb_irrefl s)
  | inr ge ↦ ge
]

-- `format!("{key}\0")` is the least text above `key`.
pub ltb-append : (s : Text) (c : ℕ) → text_ltb s (s ++ c ∷ []) ≡ true
unfolding text_ltb
ltb-append [] c = refl
ltb-append (x ∷ s) c = ground (arith, ltb-append s c)

pub ltb-append_zero : (s t : Text) → text_ltb s t ≡ true → text_ltb t (s ++ 0 ∷ []) ≡ false
unfolding text_ltb
ltb-append_zero s [] h = cc
ltb-append_zero [] (y ∷ []) h = ground arith
ltb-append_zero [] (y ∷ z ∷ t) h = ground arith
ltb-append_zero (x ∷ s) (y ∷ t) h = ground (arith, ltb-append_zero s t)
