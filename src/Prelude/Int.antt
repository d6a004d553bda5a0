-- ===== src/Prelude/Int.antt =====
-- C's `int` as an integer, and the reading of a 32-bit pattern as one.
use Prim.Native.Nat.{ℕ, ◌-◌, ◌^◌}
use nicof.Prelude.Tests.{ltb, if◌then◌else◌, ◌==◌}
use mathlib.Core.Bool.{Bool, false}

-- `negsuc n` is -(n + 1).
pub data ℤ : Type 0 where
  pos : ℕ → ℤ
  negsuc : ℕ → ℤ

-- The cast `(int)w` of a `uint`.
abbrev pub to_int : ℕ → ℤ
to_int w = if ltb w (2 ^ 31) then pos w else negsuc (2 ^ 32 - w - 1)

-- The test `rc == 0`.
abbrev pub is_zero : ℤ → Bool
is_zero (pos n) = n == 0
is_zero (negsuc n) = false

-- The integer -n.
abbrev pub neg : ℕ → ℤ
neg n = if n == 0 then pos 0 else negsuc (n - 1)
