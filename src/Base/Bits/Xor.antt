-- ===== src/Base/Bits/Xor.antt =====
-- Exclusive or is a group operation, and respects the low digits.
use Prim.Native.Nat.{ℕ, zero, suc, ◌+◌, ◌/◌, ◌%◌, ◌^◌, ◌≤◌, ◌<◌, bit_xor, bit_xor-bitwise}
use mathlib.Core.Path.{◌≡◌, refl, sym, ap, ap₂, ◌∙◌}
use native.Mathlib.Omega.{arith}
use native.Mathlib.Nat.{le_refl, pow-suc, mod-one}
use ch58x_hal.Base.Bits.Step.{
  bit_xor_step, half-bit_xor, low-bit_xor, eq_of_halves, mod-two-pow, half-mod,
}

xor_comm_below : (k a b : ℕ) → a ≤ k → b ≤ k → bit_xor a b ≡ bit_xor b a
xor_comm_below zero zero zero p q = refl
xor_comm_below zero (suc a) b p q = absurd (omega arith)
xor_comm_below zero zero (suc b) p q = absurd (omega arith)
xor_comm_below (suc k) a b p q = omega (
  arith,
  bit_xor_step a b,
  bit_xor_step b a,
  xor_comm_below k (a / 2) (b / 2) (omega arith) (omega arith),
)

pub xor_comm : (a b : ℕ) → bit_xor a b ≡ bit_xor b a
xor_comm a b = xor_comm_below (a + b) a b (omega arith) (omega arith)

pub zero-xor : (b : ℕ) → bit_xor 0 b ≡ b
zero-xor b = bit_xor-bitwise 0 b

pub xor-zero : (a : ℕ) → bit_xor a 0 ≡ a
xor-zero a = xor_comm a 0 ∙ zero-xor a

xor_self_below : (k a : ℕ) → a ≤ k → bit_xor a a ≡ 0
xor_self_below zero zero p = refl
xor_self_below zero (suc a) p = absurd (omega arith)
xor_self_below (suc k) a p = omega (arith, bit_xor_step a a, xor_self_below k (a / 2) (omega arith))

pub xor_self : (a : ℕ) → bit_xor a a ≡ 0
xor_self a = xor_self_below a a (le_refl a)

regroup :
    (a b c : ℕ)
    → bit_xor (bit_xor (a / 2) (b / 2)) (c / 2) ≡ bit_xor (a / 2) (bit_xor (b / 2) (c / 2))
    → bit_xor (bit_xor a b) c ≡ bit_xor a (bit_xor b c)
regroup a b c halves =
    eq_of_halves _ _
      (half-bit_xor (bit_xor a b) c
        ∙ ap (λ (t : ℕ). bit_xor t (c / 2)) (half-bit_xor a b)
        ∙ halves
        ∙ ap (bit_xor (a / 2)) (sym (half-bit_xor b c))
        ∙ sym (half-bit_xor a (bit_xor b c)))
      (omega (
        arith,
        low-bit_xor (bit_xor a b) c,
        low-bit_xor a (bit_xor b c),
        low-bit_xor a b,
        low-bit_xor b c,
      ))

xor_assoc_below :
    (k a b c : ℕ) → a ≤ k → b ≤ k → c ≤ k → bit_xor (bit_xor a b) c ≡ bit_xor a (bit_xor b c)
xor_assoc_below zero zero zero zero p q r = refl
xor_assoc_below zero (suc a) b c p q r = absurd (omega arith)
xor_assoc_below zero zero (suc b) c p q r = absurd (omega arith)
xor_assoc_below zero zero zero (suc c) p q r = absurd (omega arith)
xor_assoc_below (suc k) a b c p q r =
    regroup a b c
      (xor_assoc_below k (a / 2) (b / 2) (c / 2) (omega arith) (omega arith) (omega arith))

pub xor_assoc : (a b c : ℕ) → bit_xor (bit_xor a b) c ≡ bit_xor a (bit_xor b c)
xor_assoc a b c = xor_assoc_below (a + b + c) a b c (omega arith) (omega arith) (omega arith)

-- A mask applied twice leaves the value as it was.
pub xor_twice : (a m : ℕ) → bit_xor (bit_xor a m) m ≡ a
xor_twice a m = xor_assoc a m m ∙ ap (bit_xor a) (xor_self m) ∙ xor-zero a

pub xor_right_comm : (a b c : ℕ) → bit_xor (bit_xor a b) c ≡ bit_xor (bit_xor a c) b
xor_right_comm a b c = xor_assoc a b c ∙ ap (bit_xor a) (xor_comm b c) ∙ sym (xor_assoc a c b)

pub xor_cancel : (m a b : ℕ) → bit_xor a m ≡ bit_xor b m → a ≡ b
xor_cancel m a b h = sym (xor_twice a m) ∙ ap (λ (t : ℕ). bit_xor t m) h ∙ xor_twice b m

pub xor-lt : (k a b : ℕ) → a < 2 ^ k → b < 2 ^ k → bit_xor a b < 2 ^ k
xor-lt zero zero zero p q = p
xor-lt zero (suc a) b p q = absurd (omega arith)
xor-lt zero zero (suc b) p q = absurd (omega arith)
xor-lt (suc k) a b p q = omega (
  arith,
  pow-suc 2 k,
  bit_xor_step a b,
  xor-lt k (a / 2) (b / 2) (omega (arith, pow-suc 2 k)) (omega (arith, pow-suc 2 k)),
)

-- The low digits of the result are those of the arguments.
pub xor-mod : (k a b : ℕ) → bit_xor a b % 2 ^ k ≡ bit_xor (a % 2 ^ k) (b % 2 ^ k)
xor-mod zero a b = mod-one _ ∙ ap₂ bit_xor (sym (mod-one a)) (sym (mod-one b))
xor-mod (suc k) a b =
    eq_of_halves _ _
      (half-mod (bit_xor a b) k
        ∙ ap (λ (t : ℕ). t % 2 ^ k) (half-bit_xor a b)
        ∙ xor-mod k (a / 2) (b / 2)
        ∙ ap₂ bit_xor (sym (half-mod a k)) (sym (half-mod b k))
        ∙ sym (half-bit_xor (a % 2 ^ suc k) (b % 2 ^ suc k)))
      (omega (
        arith,
        mod-two-pow (bit_xor a b) k,
        mod-two-pow a k,
        mod-two-pow b k,
        low-bit_xor a b,
        low-bit_xor (a % 2 ^ suc k) (b % 2 ^ suc k),
      ))
