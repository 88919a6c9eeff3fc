-- ===== src/Base/Int.antt =====
-- int64 values, read off their 64 bits as two's complement.
use Prim.Native.Nat.{ℕ, ◌-◌, ◌^◌}
use mathlib.Core.Bool.{Bool, true, false}
use go_cfc.Base.Tests.{ltb, leb, ◌==◌, if◌then◌else◌}

-- `negsuc n` is -(n + 1).
pub data ℤ : Type 0 where
  pos : ℕ → ℤ
  negsuc : ℕ → ℤ

-- The int64 whose bits are those of `u`, for `u` below 2 ^ 64.
abbrev pub int64_of : ℕ → ℤ
int64_of u = if ltb u (2 ^ 63) then pos u else negsuc (2 ^ 64 - u - 1)

-- The test `a <= b` against a bound `b` that is not negative.
abbrev pub at_most : ℤ → ℕ → Bool
at_most (pos n) b = leb n b
at_most (negsuc n) b = true

-- `int(a)` of an int64 that is not negative.
abbrev pub to_size : ℤ → ℕ
to_size (pos n) = n
to_size (negsuc n) = 0

abbrev pub int_eq : ℤ → ℤ → Bool
int_eq (pos a) (pos b) = a == b
int_eq (negsuc a) (negsuc b) = a == b
int_eq _ _ = false
