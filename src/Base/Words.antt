-- ===== src/Base/Words.antt =====
-- Machine words: casts, shifts, masks and little-endian octets.
use Prim.Native.Nat.{ℕ, ◌+◌, ◌-◌, ◌*◌, ◌/◌, ◌%◌, ◌^◌, ◌<◌, bit_and}
use mathlib.Core.Path.{◌≡◌}
use mathlib.Core.Bool.{Bool}
use mathlib.Core.List.{List, [], ◌∷◌}
use native.Mathlib.Omega.{arith}
use ch58x_hal.Base.Tests.{ltb, if◌then◌else◌, ◌!=◌}

abbrev pub u8 : ℕ → ℕ
u8 n = n % 2 ^ 8

abbrev pub u16 : ℕ → ℕ
u16 n = n % 2 ^ 16

abbrev pub u32 : ℕ → ℕ
u32 n = n % 2 ^ 32

infixl 75 ◌<<<◌ ◌>>>◌
abbrev pub ◌<<<◌ : ℕ → ℕ → ℕ
x <<< k = x * 2 ^ k

abbrev pub ◌>>>◌ : ℕ → ℕ → ℕ
x >>> k = x / 2 ^ k

-- `value & mask != 0`.
abbrev pub has_bits : ℕ → ℕ → Bool
has_bits value mask = bit_and value mask != 0

-- `u64::saturating_add` and `u64::saturating_mul`.
abbrev pub saturate : ℕ → ℕ
saturate n = if ltb n (2 ^ 64) then n else 2 ^ 64 - 1

-- `u16::from_le_bytes` and `u32::from_le_bytes`.
abbrev pub u16_from_le : ℕ → ℕ → ℕ
u16_from_le a b = a + b * 256

abbrev pub u32_from_le : ℕ → ℕ → ℕ → ℕ → ℕ
u32_from_le a b c d = a + b * 256 + c * 65536 + d * 16777216

-- `to_le_bytes`.
abbrev pub u16_to_le : ℕ → List ℕ
u16_to_le n = n % 256 ∷ n / 256 % 256 ∷ []

abbrev pub u32_to_le : ℕ → List ℕ
u32_to_le n = n % 256 ∷ n / 256 % 256 ∷ n / 65536 % 256 ∷ n / 16777216 % 256 ∷ []

pub u16_from_le_to_le : (n : ℕ) → n < 2 ^ 16 → u16_from_le (n % 256) (n / 256 % 256) ≡ n
u16_from_le_to_le n h = omega arith

abbrev pub IsByte : ℕ → Type 0
IsByte n = n < 256
