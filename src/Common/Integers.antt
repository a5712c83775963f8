-- ===== src/Common/Integers.antt =====
-- Signed integers over the native numbers, and C's conversions between them and unsigned ones,
-- which keep the value modulo the width, as gcc and clang do.
use Prim.Native.Nat.{ℕ, ◌+◌, ◌-◌, ◌*◌, ◌/◌, ◌%◌, ◌^◌, ◌<◌}
use mathlib.Core.Path.{◌≡◌}
use native.Mathlib.Omega.{arith}
use squashfuse.Common.Tests.{leb, ltb, if◌then◌else◌}

-- `negsuc n` is -(n + 1).
pub data ℤ : Type 0 where
  pos : ℕ → ℤ
  negsuc : ℕ → ℤ

-- a - b, as an integer.
abbrev pub sub_ℕ : ℕ → ℕ → ℤ
sub_ℕ a b = if leb b a then pos (a - b) else negsuc (b - a - 1)

-- From `uint32_t` to `int`.
unfoldable pub to_int : ℕ → ℤ
to_int n = if ltb n (2 ^ 31) then pos n else negsuc (2 ^ 32 - 1 - n)

-- From `int` to an unsigned type of 64 bits.
unfoldable pub to_unsigned64 : ℤ → ℕ
to_unsigned64 (pos n) = n
to_unsigned64 (negsuc n) = 2 ^ 64 - 1 - n

-- The integer that 32 bits stand for in two's complement: the top bit counts for -(2 ^ 31).
abbrev pub two_complement32 : ℕ → ℤ
two_complement32 n = sub_ℕ (n % 2 ^ 31) (n / 2 ^ 31 * 2 ^ 31)

-- The number of an integer and 32 bits, and that of the sum of one and 16 bits in two's complement.
abbrev pub low_bits32 : ℤ → ℕ
low_bits32 (pos n) = n % 2 ^ 32
low_bits32 (negsuc n) = 2 ^ 32 - 1 - n % 2 ^ 32

abbrev pub plus_signed16 : ℕ → ℕ → ℤ
plus_signed16 n d = sub_ℕ (n + d % 2 ^ 15) (d / 2 ^ 15 * 2 ^ 15)

pub to_int_lem : (n : ℕ) → n < 2 ^ 32 → to_int n ≡ two_complement32 n
unfolding to_int
to_int_lem n h = ground arith
