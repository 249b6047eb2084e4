-- ===== src/Base/Bits/Test.antt =====
-- The test of one bit with a shifted mask.
use Prim.Native.Nat.{ℕ, ◌*◌, ◌/◌, ◌%◌, ◌^◌, bit_and}
use mathlib.Core.Path.{◌≡◌, ap, ◌∙◌}
use mathlib.Core.Logic.{◌⊎◌, inl, inr}
use native.Mathlib.Omega.{arith}
use native.Mathlib.Nat.{one-le-pow}
use ch58x_hal.Base.Tests.{◌==◌}
use ch58x_hal.Base.Words.{has_bits}
use ch58x_hal.Base.Bits.Mask.{and-bit}

module _ (v k : ℕ) where
  bit_value : (b q : ℕ) → v / 2 ^ k % 2 ≡ b → bit_and v (1 * 2 ^ k) ≡ b * 2 ^ k
  bit_value b q e = ap (bit_and v) (omega arith) ∙ and-bit k v ∙ ap (λ (t : ℕ). t * 2 ^ k) e

  -- `v & (1 << k) != 0` asks for the digit `k` of `v`.
  pub bit_set : has_bits v (1 * 2 ^ k) ≡ (v / 2 ^ k % 2 == 1)
  bit_set = elim (parity (v / 2 ^ k)) [
    | inl z ↦ ground (arith, bit_value 0 0 z)
    | inr o ↦ ground (arith, bit_value 1 0 o, one-le-pow k 2 (omega arith))
  ]
    where
      parity : (n : ℕ) → (n % 2 ≡ 0) ⊎ (n % 2 ≡ 1)
      parity n = ground arith
