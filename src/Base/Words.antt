-- ===== src/Base/Words.antt =====
-- C's fixed-width arithmetic. A `uint32_t` or `uint64_t` is a number below its modulus; an `int` is
-- an integer, and `to_u32` and `to_i32` are C's conversions between `int` and `uint32_t`.
use Prim.Native.Nat.{ℕ, ◌+◌, ◌-◌, ◌%◌, ◌^◌, ◌≤◌, ◌<◌}
use mathlib.Core.Path.{◌≡◌}
use native.Mathlib.Omega.{arith}
use usteer.Base.Tests.{ltb, if◌then◌else◌}
use usteer.Base.Int.{ℤ, pos, negsuc, ◌≤ℤ◌}

abbrev pub u8 : ℕ → ℕ
u8 n = n % 2 ^ 8

abbrev pub u16 : ℕ → ℕ
u16 n = n % 2 ^ 16

abbrev pub u32 : ℕ → ℕ
u32 n = n % 2 ^ 32

abbrev pub u64 : ℕ → ℕ
u64 n = n % 2 ^ 64

-- Unsigned subtraction; `-` on numbers stops at 0, so the modulus is added first.
abbrev pub sub32 : ℕ → ℕ → ℕ
sub32 a b = (a + 2 ^ 32 - b) % 2 ^ 32

abbrev pub sub64 : ℕ → ℕ → ℕ
sub64 a b = (a + 2 ^ 64 - b) % 2 ^ 64

-- (int8_t) of a byte.
abbrev pub to_i8 : ℕ → ℤ
to_i8 v = if ltb v 128 then pos v else negsuc (255 - v)

-- (uint32_t) of an int.
abbrev pub to_u32 : ℤ → ℕ
to_u32 (pos n) = n % 2 ^ 32
to_u32 (negsuc n) = 2 ^ 32 - 1 - n % 2 ^ 32

-- (int) of a uint32_t.
abbrev pub to_i32 : ℕ → ℤ
to_i32 w = if ltb w (2 ^ 31) then pos w else negsuc (2 ^ 32 - 1 - w)

-- The int that an int computation leaves.
abbrev pub i32 : ℤ → ℤ
i32 z = to_i32 (to_u32 z)

abbrev pub IsI32 : ℤ → Type 0
IsI32 z = (negsuc (2 ^ 31 - 1) ≤ℤ z) × (z ≤ℤ pos (2 ^ 31 - 1))

-- An int in range survives the two conversions.
pub i32_lem : (z : ℤ) → IsI32 z → i32 z ≡ z
i32_lem z h = ground arith

-- An elapsed time on a clock that does not run backwards is the plain difference.
pub sub64_lem : (a b : ℕ) → b ≤ a → a < 2 ^ 64 → sub64 a b ≡ a - b
sub64_lem a b h k = omega arith

-- A number that is passed on as an `unsigned` is read back.
pub to_i32-to_u32 : (z : ℤ) → IsI32 z → to_i32 (to_u32 z) ≡ z
to_i32-to_u32 z h = i32_lem z h

pub to_i32-IsI32 : (n : ℕ) → n < 2 ^ 32 → IsI32 (to_i32 n)
to_i32-IsI32 n h = ground arith

pub u32-bound : (n : ℕ) → u32 n < 2 ^ 32
u32-bound n = omega arith
