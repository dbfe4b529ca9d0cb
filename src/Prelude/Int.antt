-- ===== src/Prelude/Int.antt =====
-- C's `int`, and its conversions to and from unsigned integers of a given modulus.
use Prim.Native.Nat.{ℕ, ◌-◌, ◌%◌, ◌<◌}
use mathlib.Core.Path.{◌≡◌}
use mathlib.Core.Bool.{Bool, true, false}
use native.Mathlib.Omega.{arith}
use fork_plugin.Prelude.Tests.{ltb, if◌then◌else◌}

-- `negsuc n` is -(n + 1).
pub data ℤ : Type 0 where
  pos : ℕ → ℤ
  negsuc : ℕ → ℤ

-- Conversion to an unsigned type of modulus `m`.
unfoldable pub to_unsigned : ℕ → ℤ → ℕ
to_unsigned m (pos n) = n % m
to_unsigned m (negsuc n) = m - 1 - n % m

-- Conversion of an unsigned value to a 32-bit `int`.
unfoldable pub to_int : ℕ → ℤ
to_int n = let r = n % 4294967296 in if ltb r 2147483648 then pos r else negsuc (4294967295 - r)

-- `int` to `bool`.
unfoldable pub to_bool : ℤ → Bool
to_bool (pos n) = ltb 0 n
to_bool (negsuc n) = true

-- `bool` to `int`.
unfoldable pub of_bool : Bool → ℤ
of_bool true = pos 1
of_bool false = pos 0

-- An `int` in range survives the way through an unsigned type of 32 bits.
pub to_int-to_unsigned : (n : ℕ) → n < 2147483648 → to_int (to_unsigned 4294967296 (pos n)) ≡ pos n
unfolding to_int to_unsigned
to_int-to_unsigned n h = ground arith
