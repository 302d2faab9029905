-- ===== src/Base/Int.antt =====
-- Python's integers, their equality and their order.
use Prim.Native.Nat.{ℕ}
use mathlib.Core.Path.{◌≡◌, refl, ap}
use mathlib.Core.Bool.{Bool, true, false}
use native.Mathlib.Omega.{arith}
use korea_public_data_be.Base.Tests.{ltb, eqb, eqb_iff}

pub data ℤ : Type 0 where
  pos negsuc : ℕ → ℤ

abbrev pub eq_int : ℤ → ℤ → Bool
eq_int (pos m) (pos n) = eqb m n
eq_int (negsuc m) (negsuc n) = eqb m n
eq_int (pos _) (negsuc _) = false
eq_int (negsuc _) (pos _) = false

abbrev pub lt_int : ℤ → ℤ → Bool
lt_int (pos m) (pos n) = ltb m n
lt_int (negsuc m) (negsuc n) = ltb n m
lt_int (pos _) (negsuc _) = false
lt_int (negsuc _) (pos _) = true

pub eq_int→eq : (a b : ℤ) → eq_int a b ≡ true → a ≡ b
eq_int→eq (pos m) (pos n) h = ap pos ((eqb_iff m n).0 h)
eq_int→eq (negsuc m) (negsuc n) h = ap negsuc ((eqb_iff m n).0 h)
eq_int→eq (pos _) (negsuc _) h = cc
eq_int→eq (negsuc _) (pos _) h = cc

pub eq_int_refl : (a : ℤ) → eq_int a a ≡ true
eq_int_refl (pos n) = (eqb_iff n n).1 refl
eq_int_refl (negsuc n) = (eqb_iff n n).1 refl

pub lt_int_irrefl : (a : ℤ) → lt_int a a ≡ false
lt_int_irrefl (pos n) = ground arith
lt_int_irrefl (negsuc n) = ground arith
