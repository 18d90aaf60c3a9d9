-- ===== src/Prelude/Int.antt =====
-- Signed integers over the native numbers.
use Prim.Native.Nat.{ℕ, zero, suc}
use curator_spec.Prelude.Tests.{◌==◌}
use mathlib.Core.Path.{◌≡◌}
use mathlib.Core.Bool.{Bool, true, false}
use native.Mathlib.Omega.{arith}
use curator_spec.Prelude.Tests.{ltb}

-- `negsuc n` is -(n + 1).
pub data ℤ : Type 0 where
  pos : ℕ → ℤ
  negsuc : ℕ → ℤ

-- `-i`
abbrev pub negate : ℤ → ℤ
negate (pos zero) = pos 0
negate (pos (suc n)) = negsuc n
negate (negsuc n) = pos (suc n)

-- `i > j`
abbrev pub int_gt : ℤ → ℤ → Bool
int_gt (pos m) (pos n) = ltb n m
int_gt (pos m) (negsuc n) = true
int_gt (negsuc m) (pos n) = false
int_gt (negsuc m) (negsuc n) = ltb m n

pub int_gt_asymm : (i j : ℤ) → int_gt i j ≡ true → int_gt j i ≡ false
int_gt_asymm (pos m) (pos n) h = ground arith
int_gt_asymm (pos m) (negsuc n) h = ground arith
int_gt_asymm (negsuc m) (pos n) h = ground arith
int_gt_asymm (negsuc m) (negsuc n) h = ground arith

pub int_le_trans : (i j k : ℤ) → int_gt i j ≡ false → int_gt j k ≡ false → int_gt i k ≡ false
int_le_trans (pos l) (pos m) (pos n) g h = ground arith
int_le_trans (pos l) (pos m) (negsuc n) g h = ground arith
int_le_trans (pos l) (negsuc m) (pos n) g h = ground arith
int_le_trans (pos l) (negsuc m) (negsuc n) g h = ground arith
int_le_trans (negsuc l) (pos m) (pos n) g h = ground arith
int_le_trans (negsuc l) (pos m) (negsuc n) g h = ground arith
int_le_trans (negsuc l) (negsuc m) (pos n) g h = ground arith
int_le_trans (negsuc l) (negsuc m) (negsuc n) g h = ground arith

unfoldable pub same_int : ℤ → ℤ → Bool
same_int (pos m) (pos n) = m == n
same_int (negsuc m) (negsuc n) = m == n
same_int _ _ = false
