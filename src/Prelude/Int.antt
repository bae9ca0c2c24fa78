-- ===== src/Prelude/Int.antt =====
-- The `int` values that the source compares with a count. `negsuc n` is -(n + 1).
use Prim.Native.Nat.{ℕ, zero, suc}
use mathlib.Core.Bool.{Bool, true, false}
use miniweb.Prelude.Tests.{leb, ltb}

pub data ℤ : Type 0 where
  pos : ℕ → ℤ
  negsuc : ℕ → ℤ

-- `n >= bound` for a count `n`.
abbrev pub at_least : ℕ → ℤ → Bool
at_least n (pos m) = leb m n
at_least n (negsuc m) = true

-- `n <= 0`
abbrev pub at_most_zero : ℤ → Bool
at_most_zero (pos zero) = true
at_most_zero (pos (suc n)) = false
at_most_zero (negsuc n) = true

-- `value > n`
abbrev pub exceeds : ℤ → ℕ → Bool
exceeds (pos m) n = ltb n m
exceeds (negsuc m) n = false

abbrev pub negate : ℕ → ℤ
negate zero = pos zero
negate (suc n) = negsuc n
