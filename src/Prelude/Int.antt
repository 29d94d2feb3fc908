-- ===== src/Prelude/Int.antt =====
-- Signed integers over the native numbers, and the 64-bit product of a `time.Duration`.
use Prim.Native.Nat.{ℕ, suc, ◌-◌, ◌*◌, ◌%◌, ◌^◌}
use mathlib.Core.Bool.{Bool, true}
use code_vald_org.Prelude.Tests.{ltb, nat_eq, if◌then◌else◌}

-- `negsuc n` is -(n + 1).
pub data ℤ : Type 0 where
  pos : ℕ → ℤ
  negsuc : ℕ → ℤ

abbrev pub neg : ℕ → ℤ
neg n = if nat_eq n 0 then pos 0 else negsuc (n - 1)

-- `d <= 0`
abbrev pub is_nonpositive : ℤ → Bool
is_nonpositive (pos n) = nat_eq n 0
is_nonpositive (negsuc n) = true

-- The bit pattern of an `int64`, and the `int64` of a bit pattern.
abbrev pub bits_of : ℤ → ℕ
bits_of (pos n) = n % 2 ^ 64
bits_of (negsuc n) = (2 ^ 64 - suc (n % 2 ^ 64)) % 2 ^ 64

abbrev pub int64_of : ℕ → ℤ
int64_of b = if ltb (b % 2 ^ 64) (2 ^ 63) then pos (b % 2 ^ 64) else neg (2 ^ 64 - b % 2 ^ 64)

-- `a * b` on `int64`, which wraps.
abbrev pub mul64 : ℤ → ℤ → ℤ
mul64 a b = int64_of (bits_of a * bits_of b)
