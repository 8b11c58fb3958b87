-- ===== src/Base/Integers.antt =====
-- Machine integers with a sign.
use Prim.Native.Nat.{ℕ, zero, suc}
use mathlib.Core.Path.{◌≡◌, refl, ap}
use mathlib.Core.Bool.{Bool, true, false}
use native.Mathlib.Omega.{arith}
use v8app.Base.Tests.{ltb}

pub data ℤ : Type 0 where
  pos : ℕ → ℤ
  negsuc : ℕ → ℤ

abbrev pub neg : ℤ → ℤ
neg (pos zero) = pos 0
neg (pos (suc n)) = negsuc n
neg (negsuc n) = pos (suc n)

abbrev pub int_ltb : ℤ → ℤ → Bool
int_ltb (pos m) (pos n) = ltb m n
int_ltb (pos m) (negsuc n) = false
int_ltb (negsuc m) (pos n) = true
int_ltb (negsuc m) (negsuc n) = ltb n m

pub int_ltb_asym : (i j : ℤ) → int_ltb i j ≡ true → int_ltb j i ≡ false
int_ltb_asym (pos m) (pos n) h = ground arith
int_ltb_asym (pos m) (negsuc n) h = cc
int_ltb_asym (negsuc m) (pos n) h = refl
int_ltb_asym (negsuc m) (negsuc n) h = ground arith

pub int_ltb_trans : (i j k : ℤ) → int_ltb i j ≡ true → int_ltb j k ≡ true → int_ltb i k ≡ true
int_ltb_trans (pos m) (pos n) (pos l) h g = ground arith
int_ltb_trans (pos m) (pos n) (negsuc l) h g = cc
int_ltb_trans (pos m) (negsuc n) k h g = cc
int_ltb_trans (negsuc m) (pos n) (pos l) h g = refl
int_ltb_trans (negsuc m) (pos n) (negsuc l) h g = cc
int_ltb_trans (negsuc m) (negsuc n) (pos l) h g = refl
int_ltb_trans (negsuc m) (negsuc n) (negsuc l) h g = ground arith

pub int_eq : (i j : ℤ) → int_ltb i j ≡ false → int_ltb j i ≡ false → i ≡ j
int_eq (pos m) (pos n) h g = let e : m ≡ n = ground arith in ap pos e
int_eq (pos m) (negsuc n) h g = cc
int_eq (negsuc m) (pos n) h g = cc
int_eq (negsuc m) (negsuc n) h g = let e : m ≡ n = ground arith in ap negsuc e
