-- ===== src/Phy/Crc/Step.antt =====
-- One step of the CRC register as arithmetic, and how much of it can be undone.
use ch58x_hal.Base.{ℕ, zero, suc, ◌+◌, ◌*◌, ◌/◌, ◌%◌, ◌^◌, ◌≤◌, ◌<◌, bit_xor, ◌≡◌, refl, sym, ap}
use ch58x_hal.Base.{ap₂, ◌∙◌, arith, ◌!=◌, if◌then◌else◌, bit_and}
use ch58x_hal.Base.Bits.Step.{mod-two-pow, mod-mod-pow, low-bit_xor}
use ch58x_hal.Base.Bits.Xor.{xor-lt, xor-mod, xor_cancel}
use ch58x_hal.Base.Bits.Mask.{and-low}
use ch58x_hal.Phy.Crc.{crc_bit}

abbrev feed : ℕ → ℕ → ℕ
feed feedback shifted = if feedback != 0 then bit_xor shifted 0x65b else shifted

-- `crc_bit` in terms of the input bit: the top position of the register and the input are added.
pub shift_in : ℕ → ℕ → ℕ
shift_in input state = feed ((state / 2 ^ 23 + input) % 2) (state * 2 % 2 ^ 24)

feedback_digit : (top input : ℕ) → top ≤ 1 → input ≤ 1 → bit_xor top input ≡ (top + input) % 2
feedback_digit zero zero p q = refl
feedback_digit zero (suc zero) p q = refl
feedback_digit (suc zero) zero p q = refl
feedback_digit (suc zero) (suc zero) p q = refl
feedback_digit (suc (suc a)) b p q = absurd (omega arith)
feedback_digit zero (suc (suc b)) p q = absurd (omega arith)
feedback_digit (suc zero) (suc (suc b)) p q = absurd (omega arith)

pub crc_bit-shift_in :
    (byte bit state : ℕ)
    → state < 2 ^ 24
    → crc_bit byte bit state ≡ shift_in (byte / 2 ^ bit % 2) state
unfolding crc_bit shift_in
crc_bit-shift_in byte bit state h = ap₂ feed feedback shifted
  where
    input : bit_and (byte / 2 ^ bit) 1 ≡ byte / 2 ^ bit % 2
    input = and-low 1 (byte / 2 ^ bit)

    feedback :
        bit_xor (state / 2 ^ 23 % 2 ^ 8) (bit_and (byte / 2 ^ bit) 1)
        ≡ (state / 2 ^ 23 + byte / 2 ^ bit % 2) % 2
    feedback =
        ap₂ bit_xor (omega arith) input
        ∙ feedback_digit (state / 2 ^ 23) (byte / 2 ^ bit % 2) (omega arith) (omega arith)

    shifted : bit_and (state * 2 ^ 1 % 2 ^ 32) 0xffffff ≡ state * 2 % 2 ^ 24
    shifted = and-low 24 (state * 2 ^ 1 % 2 ^ 32) ∙ omega arith

pub shift_in-lt : (input state : ℕ) → shift_in input state < 2 ^ 24
unfolding shift_in
shift_in-lt input state =
    ground (arith, xor-lt 24 (state * 2 % 2 ^ 24) 0x65b (omega arith) (omega arith))

-- The lowest position after a step is the feedback.
shift_in_low : (input state : ℕ) → shift_in input state % 2 ≡ (state / 2 ^ 23 + input) % 2
unfolding shift_in
shift_in_low input state = ground (arith, low-bit_xor (state * 2 % 2 ^ 24) 0x65b)

shift_low : (k state : ℕ) → k ≤ 23 → state * 2 % 2 ^ 24 % 2 ^ suc k ≡ state % 2 ^ k * 2
shift_low k state h =
    mod-mod-pow (suc k) 24 (state * 2) (omega arith)
    ∙ omega (arith, mod-two-pow (state * 2) k, ap (λ (t : ℕ). t % 2 ^ k) halved)
  where
    halved : state * 2 / 2 ≡ state
    halved = omega arith

-- With the same feedback the positions that were shifted are unchanged by it.
feed_cancel :
    (feedback k s t : ℕ) → feed feedback s % 2 ^ k ≡ feed feedback t % 2 ^ k → s % 2 ^ k ≡ t % 2 ^ k
feed_cancel feedback k s t h = ground (
  arith,
  xor-mod k s 0x65b,
  xor-mod k t 0x65b,
  xor_cancel (0x65b % 2 ^ k) (s % 2 ^ k) (t % 2 ^ k),
)

-- If the last `k + 1` positions agree after a step, the last `k` agreed before it, and the tops of
-- the registers differed by as much as the inputs.
pub shift_in_back :
    (k a b s t : ℕ)
    → k ≤ 23
    → shift_in a s % 2 ^ suc k ≡ shift_in b t % 2 ^ suc k
    → (s % 2 ^ k ≡ t % 2 ^ k) × ((s / 2 ^ 23 + a) % 2 ≡ (t / 2 ^ 23 + b) % 2)
unfolding shift_in
shift_in_back k a b s t hk h = (below, same)
  where
    low : (x y : ℕ) → x % 2 ^ suc k ≡ y % 2 ^ suc k → x % 2 ≡ y % 2
    low x y e =
        sym (mod-mod-pow 1 (suc k) x (omega arith))
        ∙ ap (λ (n : ℕ). n % 2) e
        ∙ mod-mod-pow 1 (suc k) y (omega arith)

    same : (s / 2 ^ 23 + a) % 2 ≡ (t / 2 ^ 23 + b) % 2
    same = sym (shift_in_low a s) ∙ low _ _ h ∙ shift_in_low b t

    shifted : s * 2 % 2 ^ 24 % 2 ^ suc k ≡ t * 2 % 2 ^ 24 % 2 ^ suc k
    shifted =
        feed_cancel ((t / 2 ^ 23 + b) % 2) (suc k) _ _
          (ap (λ (f : ℕ). feed f (s * 2 % 2 ^ 24) % 2 ^ suc k) (sym same) ∙ h)

    below : s % 2 ^ k ≡ t % 2 ^ k
    below = omega (arith, shift_low k s hk, shift_low k t hk, shifted)
