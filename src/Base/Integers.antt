-- ===== src/Base/Integers.antt =====
-- Signed integers over the native numbers.
use Prim.Native.Nat.{ℕ, ◌<◌}
use mathlib.Core.Path.{◌≡◌, refl, ap}
use mathlib.Core.Bool.{Bool, true, false}
use native.Mathlib.Omega.{arith}
use cubby.Base.Bools.{leb, ◌==◌, ==_sound, ==_refl}

pub data ℤ : Type 0 where
  pos : ℕ → ℤ
  negsuc : ℕ → ℤ

abbrev pub int_leb : ℤ → ℤ → Bool
int_leb (pos m) (pos n) = leb m n
int_leb (pos m) (negsuc n) = false
int_leb (negsuc m) (pos n) = true
int_leb (negsuc m) (negsuc n) = leb n m

abbrev pub int_eq : ℤ → ℤ → Bool
int_eq (pos m) (pos n) = m == n
int_eq (pos m) (negsuc n) = false
int_eq (negsuc m) (pos n) = false
int_eq (negsuc m) (negsuc n) = m == n

abbrev pub Below : ℤ → ℤ → Type 0
Below (pos m) (pos n) = m < n
Below (pos m) (negsuc n) = ⊥
Below (negsuc m) (pos n) = Unit
Below (negsuc m) (negsuc n) = n < m

pub int_leb-Below : (a b : ℤ) → int_leb b a ≡ false → Below a b
int_leb-Below (pos m) (pos n) h = ground arith
int_leb-Below (pos m) (negsuc n) h = cc
int_leb-Below (negsuc m) (pos n) h = tt
int_leb-Below (negsuc m) (negsuc n) h = ground arith

pub Below-int_leb : (a b : ℤ) → Below a b → int_leb b a ≡ false
Below-int_leb (pos m) (pos n) h = ground arith
Below-int_leb (pos m) (negsuc n) h = elim h [ ]
Below-int_leb (negsuc m) (pos n) h = refl
Below-int_leb (negsuc m) (negsuc n) h = ground arith

pub int_eq_refl : (a : ℤ) → int_eq a a ≡ true
int_eq_refl (pos n) = ==_refl n
int_eq_refl (negsuc n) = ==_refl n

pub int_eq_sound : (a b : ℤ) → int_eq a b ≡ true → a ≡ b
int_eq_sound (pos m) (pos n) h = ap pos (==_sound m n h)
int_eq_sound (pos m) (negsuc n) h = cc
int_eq_sound (negsuc m) (pos n) h = cc
int_eq_sound (negsuc m) (negsuc n) h = ap negsuc (==_sound m n h)

value_of : ℤ → ℕ
value_of (pos n) = n
value_of (negsuc n) = n

pub pos_inj : {m n : ℕ} → pos m ≡ pos n → m ≡ n
unfolding value_of
pos_inj h = ap value_of h
