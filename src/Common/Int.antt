-- ===== src/Common/Int.antt =====
-- Python's integers, as far as they are compared.
use Prim.Native.Nat.{ℕ, suc, ◌-◌, ◌*◌, compare, Ordering}
use mathlib.Core.Path.{◌≡◌}
use mathlib.Core.Bool.{Bool, true, false}
use native.Mathlib.Omega.{arith}

pub data ℤ : Type 0 where
  pos negsuc : ℕ → ℤ

abbrev le_nat : ℕ → ℕ → Bool
le_nat a b = elim (compare a b) [ Ordering.gt ↦ false | _ ↦ true ]

abbrev pub le_int : ℤ → ℤ → Bool
le_int (pos a) (pos b) = le_nat a b
le_int (pos a) (negsuc b) = false
le_int (negsuc a) (pos b) = true
le_int (negsuc a) (negsuc b) = le_nat b a

-- `n * k` for a positive `k`
abbrev pub scale : ℤ → ℕ → ℤ
scale (pos n) k = pos (n * k)
scale (negsuc n) k = negsuc (suc n * k - 1)

pub le_int_trans : (a b c : ℤ) → le_int a b ≡ true → le_int b c ≡ true → le_int a c ≡ true
le_int_trans (pos a) (pos b) (pos c) h k = ground arith
le_int_trans (pos a) (pos b) (negsuc c) h k = ground arith
le_int_trans (pos a) (negsuc b) (pos c) h k = ground arith
le_int_trans (pos a) (negsuc b) (negsuc c) h k = ground arith
le_int_trans (negsuc a) (pos b) (pos c) h k = ground arith
le_int_trans (negsuc a) (pos b) (negsuc c) h k = ground arith
le_int_trans (negsuc a) (negsuc b) (pos c) h k = ground arith
le_int_trans (negsuc a) (negsuc b) (negsuc c) h k = ground arith

pub le_int_total : (a b : ℤ) → le_int a b ≡ false → le_int b a ≡ true
le_int_total (pos a) (pos b) h = ground arith
le_int_total (pos a) (negsuc b) h = ground arith
le_int_total (negsuc a) (pos b) h = ground arith
le_int_total (negsuc a) (negsuc b) h = ground arith
