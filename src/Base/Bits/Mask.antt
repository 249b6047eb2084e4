-- ===== src/Base/Bits/Mask.antt =====
-- `|` of disjoint fields, `&` with a low mask, and single-bit tests.
use Prim.Native.Nat.{ℕ, zero, suc, ◌+◌, ◌-◌, ◌*◌, ◌/◌, ◌%◌, ◌^◌, ◌≤◌, ◌<◌, bit_and, bit_or}
use Prim.Native.Nat.{bit_and-bitwise, bit_or-bitwise}
use mathlib.Core.Path.{◌≡◌, refl, sym, ap, ◌∙◌}
use native.Mathlib.Omega.{arith}
use native.Mathlib.Nat.{pow-suc, one-le-pow, mod-one, div-div-eq-div-mul}
use ch58x_hal.Base.Bits.Step.{bit_or_step, bit_and_step, mod-two-pow}

or_zero_below : (k a : ℕ) → a ≤ k → bit_or a 0 ≡ a
or_zero_below k zero h = bit_or-bitwise 0 0
or_zero_below zero (suc a) h = absurd (omega arith)
or_zero_below (suc k) (suc a) h =
    omega (arith, bit_or_step (suc a) 0, or_zero_below k (suc a / 2) (omega arith))

pub or-zero : (a : ℕ) → bit_or a 0 ≡ a
or-zero a = or_zero_below a a (omega arith)

pub zero-or : (a : ℕ) → bit_or 0 a ≡ a
zero-or a = bit_or-bitwise 0 a

and_zero_below : (k a : ℕ) → a ≤ k → bit_and a 0 ≡ 0
and_zero_below k zero h = bit_and-bitwise 0 0
and_zero_below zero (suc a) h = absurd (omega arith)
and_zero_below (suc k) (suc a) h =
    omega (arith, bit_and_step (suc a) 0, and_zero_below k (suc a / 2) (omega arith))

pub and-zero : (a : ℕ) → bit_and a 0 ≡ 0
and-zero a = and_zero_below a a (omega arith)

double_pow : (q k : ℕ) → q * 2 ^ suc k ≡ q * 2 ^ k * 2
double_pow q k = omega (arith, ap (λ (t : ℕ). q * t) (pow-suc 2 k))

-- A field above `k` digits joined to one of at most `k` digits is their sum.
pub or_disjoint : (k q r : ℕ) → r < 2 ^ k → bit_or (q * 2 ^ k) r ≡ q * 2 ^ k + r
or_disjoint zero q zero h = or-zero (q * 1) ∙ omega arith
or_disjoint zero q (suc r) h = absurd (omega arith)
or_disjoint (suc k) q r h = omega (
  arith,
  bit_or_step (q * 2 ^ suc k) r,
  double_pow q k,
  ap (λ (t : ℕ). bit_or t (r / 2)) halved,
  or_disjoint k q (r / 2) (omega (arith, pow-suc 2 k)),
)
  where
    halved : q * 2 ^ suc k / 2 ≡ q * 2 ^ k
    halved = omega (arith, double_pow q k)

-- `& (2 ^ k - 1)` is the remainder by `2 ^ k`.
pub and-low : (k a : ℕ) → bit_and a (2 ^ k - 1) ≡ a % 2 ^ k
and-low zero a = and-zero a ∙ sym (mod-one a)
and-low (suc k) a = omega (
  arith,
  bit_and_step a (2 ^ suc k - 1),
  ap (bit_and (a / 2)) halved,
  and-low k (a / 2),
  mod-two-pow a k,
  pow-suc 2 k,
  one-le-pow k 2 (omega arith),
)
  where
    halved : (2 ^ suc k - 1) / 2 ≡ 2 ^ k - 1
    halved = omega (arith, pow-suc 2 k, one-le-pow k 2 (omega arith))

-- `& (1 << k)` keeps the digit `k` in its place.
pub and-bit : (k a : ℕ) → bit_and a (2 ^ k) ≡ a / 2 ^ k % 2 * 2 ^ k
and-bit zero a = and-low 1 a ∙ omega arith
and-bit (suc k) a = omega (
  arith,
  bit_and_step a (2 ^ suc k),
  ap (bit_and (a / 2)) halved,
  and-bit k (a / 2),
  pow-suc 2 k,
  double_pow (a / 2 / 2 ^ k % 2) k,
  ap (λ (t : ℕ). t % 2 * 2 ^ suc k) shifted,
)
  where
    halved : 2 ^ suc k / 2 ≡ 2 ^ k
    halved = omega (arith, pow-suc 2 k)

    pow : 2 * 2 ^ k ≡ 2 ^ suc k
    pow = omega (arith, pow-suc 2 k)

    shifted : a / 2 / 2 ^ k ≡ a / 2 ^ suc k
    shifted = div-div-eq-div-mul a 2 (2 ^ k) ∙ ap (λ (t : ℕ). a / t) pow

pub and_comm : (a b : ℕ) → bit_and a b ≡ bit_and b a
and_comm a b = below (a + b) a b (omega arith) (omega arith)
  where
    below : (k a b : ℕ) → a ≤ k → b ≤ k → bit_and a b ≡ bit_and b a
    below zero zero zero p q = refl
    below zero (suc a) b p q = absurd (omega arith)
    below zero zero (suc b) p q = absurd (omega arith)
    below (suc k) a b p q = omega (
      arith,
      bit_and_step a b,
      bit_and_step b a,
      below k (a / 2) (b / 2) (omega arith) (omega arith),
    )

pub or_comm : (a b : ℕ) → bit_or a b ≡ bit_or b a
or_comm a b = below (a + b) a b (omega arith) (omega arith)
  where
    below : (k a b : ℕ) → a ≤ k → b ≤ k → bit_or a b ≡ bit_or b a
    below zero zero zero p q = refl
    below zero (suc a) b p q = absurd (omega arith)
    below zero zero (suc b) p q = absurd (omega arith)
    below (suc k) a b p q = omega (
      arith,
      bit_or_step a b,
      bit_or_step b a,
      below k (a / 2) (b / 2) (omega arith) (omega arith),
    )

-- A field put above what is there.
pub or_above : (k r q : ℕ) → r < 2 ^ k → bit_or r (q * 2 ^ k) ≡ r + q * 2 ^ k
or_above k r q h = or_comm r (q * 2 ^ k) ∙ or_disjoint k q r h ∙ omega arith
