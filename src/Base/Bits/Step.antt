-- ===== src/Base/Bits/Step.antt =====
-- The native bit operations recur on binary digits with fuel. Here the fuel is dropped: each is
-- described by its lowest digit and by its half.
use Prim.Native.Nat.{ℕ, zero, suc, ◌+◌, ◌*◌, ◌/◌, ◌%◌, ◌^◌, ◌≤◌, min, max, digits, bitwise, differ}
use Prim.Native.Nat.{bit_and, bit_or, bit_xor, bit_and-bitwise, bit_or-bitwise, bit_xor-bitwise}
use mathlib.Core.Path.{◌≡◌, refl, sym, ap, ◌∙◌}
use native.Mathlib.Omega.{arith}
use native.Mathlib.Nat.{
  mod-one, pow-suc, one-le-pow, mod-lt, mod-eq_of_lt, div-add-mod, add-mul-mod_self_right,
}

-- An operation on digits `f`, whose value once the first number has run out is `z`.
module _ (z : ℕ → ℕ) (f : ℕ → ℕ → ℕ) where
  out_of_digits : (k b : ℕ) → digits z f k zero b ≡ z b
  out_of_digits zero b = refl
  out_of_digits (suc k) b = refl

  fuel_agrees : (k l a b : ℕ) → a ≤ k → a ≤ l → digits z f k a b ≡ digits z f l a b
  fuel_agrees k l zero b hk hl = out_of_digits k b ∙ sym (out_of_digits l b)
  fuel_agrees zero l (suc a) b hk hl = absurd (omega arith)
  fuel_agrees (suc k) zero (suc a) b hk hl = absurd (omega arith)
  fuel_agrees (suc k) (suc l) (suc a) b hk hl =
      ap (λ (t : ℕ). t * 2 + f (suc a % 2) (b % 2))
        (fuel_agrees k l (suc a / 2) (b / 2) (omega arith) (omega arith))

  bitwise_step :
      ((b : ℕ) → z b ≡ z (b / 2) * 2 + f 0 (b % 2))
      → (a b : ℕ) → bitwise z f a b ≡ bitwise z f (a / 2) (b / 2) * 2 + f (a % 2) (b % 2)
  bitwise_step rest zero b = rest b
  bitwise_step rest (suc a) b =
      ap (λ (t : ℕ). t * 2 + f (suc a % 2) (b % 2))
        (fuel_agrees a (suc a / 2) (suc a / 2) (b / 2) (omega arith) (omega arith))

pub bit_and_step : (a b : ℕ) → bit_and a b ≡ bit_and (a / 2) (b / 2) * 2 + min (a % 2) (b % 2)
bit_and_step a b = simp bit_and-bitwise (bitwise_step (λ y. 0) min (λ y. omega arith) a b)

pub bit_or_step : (a b : ℕ) → bit_or a b ≡ bit_or (a / 2) (b / 2) * 2 + max (a % 2) (b % 2)
bit_or_step a b = simp bit_or-bitwise (bitwise_step (λ y. y) max (λ y. omega arith) a b)

differ_digits : (x y : ℕ) → differ (x % 2) (y % 2) ≡ (x + y) % 2
differ_digits x y = parity (x % 2) (y % 2) (omega arith) (omega arith) ∙ omega arith
  where
    parity : (a b : ℕ) → a ≤ 1 → b ≤ 1 → differ a b ≡ (a + b) % 2
    parity zero b p q = omega arith
    parity (suc zero) zero p q = refl
    parity (suc zero) (suc zero) p q = refl
    parity (suc zero) (suc (suc b)) p q = absurd (omega arith)
    parity (suc (suc a)) b p q = absurd (omega arith)

bit_xor_digits : (a b : ℕ) → bit_xor a b ≡ bit_xor (a / 2) (b / 2) * 2 + differ (a % 2) (b % 2)
bit_xor_digits a b = simp bit_xor-bitwise (bitwise_step (λ y. y) differ (λ y. omega arith) a b)

pub bit_xor_step : (a b : ℕ) → bit_xor a b ≡ bit_xor (a / 2) (b / 2) * 2 + (a + b) % 2
bit_xor_step a b =
    bit_xor_digits a b ∙ ap (λ (t : ℕ). bit_xor (a / 2) (b / 2) * 2 + t) (differ_digits a b)

-- The half and the lowest digit of each result.
pub half-bit_and : (a b : ℕ) → bit_and a b / 2 ≡ bit_and (a / 2) (b / 2)
half-bit_and a b = omega (arith, bit_and_step a b)

pub half-bit_or : (a b : ℕ) → bit_or a b / 2 ≡ bit_or (a / 2) (b / 2)
half-bit_or a b = omega (arith, bit_or_step a b)

pub half-bit_xor : (a b : ℕ) → bit_xor a b / 2 ≡ bit_xor (a / 2) (b / 2)
half-bit_xor a b = omega (arith, bit_xor_step a b)

pub low-bit_xor : (a b : ℕ) → bit_xor a b % 2 ≡ (a + b) % 2
low-bit_xor a b = omega (arith, bit_xor_step a b)

-- A number is its half and its lowest digit.
pub eq_of_halves : (a b : ℕ) → a / 2 ≡ b / 2 → a % 2 ≡ b % 2 → a ≡ b
eq_of_halves a b h l = omega arith

-- The last `k + 1` digits are the last digit and `k` digits of the half.
pub mod-two-pow : (a k : ℕ) → a % 2 ^ suc k ≡ a / 2 % 2 ^ k * 2 + a % 2
mod-two-pow a k =
    ap (λ (t : ℕ). t % 2 ^ suc k) parts
    ∙ add-mul-mod_self_right (a / 2 % 2 ^ k * 2 + a % 2) (a / 2 / 2 ^ k) (2 ^ suc k)
    ∙ mod-eq_of_lt (omega (arith, pow-suc 2 k, mod-lt (a / 2) (one-le-pow k 2 (omega arith))))
  where
    parts : a ≡ a / 2 % 2 ^ k * 2 + a % 2 + a / 2 / 2 ^ k * 2 ^ suc k
    parts =
        omega (arith, div-add-mod (a / 2) (2 ^ k), ap (λ (t : ℕ). a / 2 / 2 ^ k * t) (pow-suc 2 k))

pub half-mod : (a k : ℕ) → a % 2 ^ suc k / 2 ≡ a / 2 % 2 ^ k
half-mod a k = omega (arith, mod-two-pow a k)

-- Of two cuts to low digits the shorter remains.
pub mod-mod-pow : (j m a : ℕ) → j ≤ m → a % 2 ^ m % 2 ^ j ≡ a % 2 ^ j
mod-mod-pow zero m a h = mod-one _ ∙ sym (mod-one a)
mod-mod-pow (suc j) zero a h = absurd (omega arith)
mod-mod-pow (suc j) (suc m) a h = omega (
  arith,
  mod-two-pow (a % 2 ^ suc m) j,
  ap (λ (t : ℕ). t % 2 ^ j) (half-mod a m),
  mod-mod-pow j m (a / 2) (omega arith),
  mod-two-pow a m,
  mod-two-pow a j,
)
