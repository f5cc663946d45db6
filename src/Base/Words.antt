-- ===== src/Base/Words.antt =====
-- Machine words. A value of a w-bit type is its bit pattern, a number below 2 ^ w; a signed one is
-- negative when its top bit is set.
use Prim.Native.Nat.{ℕ, ◌+◌, ◌-◌, ◌%◌, ◌^◌}
use mathlib.Core.Bool.{Bool}
use betawise.Base.Tests.{leb, if◌then◌else◌}

abbrev pub u8 : ℕ → ℕ
u8 n = n % 2 ^ 8

abbrev pub u16 : ℕ → ℕ
u16 n = n % 2 ^ 16

abbrev pub u32 : ℕ → ℕ
u32 n = n % 2 ^ 32

abbrev pub is_negative8 : ℕ → Bool
is_negative8 n = leb (2 ^ 7) n

abbrev pub is_negative16 : ℕ → Bool
is_negative16 n = leb (2 ^ 15) n

abbrev pub is_negative32 : ℕ → Bool
is_negative32 n = leb (2 ^ 31) n

-- Sign extension, from `char` to `short` and from `short` to `int`.
abbrev pub extend8_16 : ℕ → ℕ
extend8_16 n = if is_negative8 n then n + 2 ^ 16 - 2 ^ 8 else n

abbrev pub extend16_32 : ℕ → ℕ
extend16_32 n = if is_negative16 n then n + 2 ^ 32 - 2 ^ 16 else n
