-- ===== src/Phy/Whitening/Core.antt =====
-- The whitening of whitening.rs against the register of the Bluetooth Core specification,
-- polynomial x^7 + x^4 + 1, drawn there with positions 0 to 6.
use mathlib.Core.Bool.{xor}
use ch58x_hal.Base.{ℕ, zero, suc, ◌+◌, ◌*◌, ◌/◌, ◌%◌, ◌≤◌, ◌<◌, ◌≡◌, refl, ap}
use ch58x_hal.Base.{◌∙◌, arith, Bool, List, [], ◌∷◌, bit_and, bit_or, bit_xor, for_range}
use ch58x_hal.Base.{◌==◌, ==_iff, ◌<<<◌, true, false, all_below, all_below_sound, if◌then◌else◌}
use ch58x_hal.Base.Bits.Step.{half-bit_xor}
use ch58x_hal.Base.Bits.Mask.{and-low}
use ch58x_hal.Phy.Whitening.{Whitener, whiten_bit, whiten_octet, whiten_octets, apply}

pub record Register : Type 0 where
  pub p0 : Bool
  pub p1 : Bool
  pub p2 : Bool
  pub p3 : Bool
  pub p4 : Bool
  pub p5 : Bool
  pub p6 : Bool

-- Position 6 is the output, and is fed back into positions 0 and 4.
pub clock : Register → Register
clock r = record {
  p0 = r.p6;
  p1 = r.p0;
  p2 = r.p1;
  p3 = r.p2;
  p4 = xor r.p3 r.p6;
  p5 = r.p4;
  p6 = r.p5;
}

abbrev digit : Bool → ℕ
digit b = if b then 1 else 0

-- Position 0 is set; positions 1 to 6 hold the channel index, its top bit in position 1.
pub init : ℕ → Register
init channel = record {
  p0 = true;
  p1 = channel / 32 % 2 == 1;
  p2 = channel / 16 % 2 == 1;
  p3 = channel / 8 % 2 == 1;
  p4 = channel / 4 % 2 == 1;
  p5 = channel / 2 % 2 == 1;
  p6 = channel % 2 == 1;
}

pub record Output : Type 0 where
  pub register : Register
  pub octet : ℕ

output_bit : ℕ → Output → Output
output_bit bit o = record {
  register = clock o.register;
  octet = if o.register.p6 then bit_xor o.octet (1 <<< bit) else o.octet;
}

pub whiten_core : Register → List ℕ → List ℕ
whiten_core r [] = []
whiten_core r (octet ∷ rest) =
    let o = for_range 8 0 output_bit (record { register = r; octet = octet }) in
    o.octet ∷ whiten_core o.register rest

-- How the code stores the register: position 6 in the lowest bit.
stored : Register → ℕ
stored r =
    digit r.p6
    + digit r.p5 * 2
    + digit r.p4 * 4
    + digit r.p3 * 8
    + digit r.p2 * 16
    + digit r.p1 * 32
    + digit r.p0 * 64

toggle_table :
    all_below 64 (λ x. bit_xor x 0x44 == (if x / 4 % 2 == 1 then x + 60 else x + 68)) ≡ true
unfolding all_below
toggle_table = refl

-- `^ 0x44` on the six lower positions sets position 6 and toggles position 2.
toggle : (x : ℕ) → x < 64 → bit_xor x 0x44 ≡ (if x / 4 % 2 == 1 then x + 60 else x + 68)
toggle x h = (==_iff _ _).0 (all_below_sound 64 _ x toggle_table h)

digit-le : (b : Bool) → digit b ≤ 1
digit-le true = omega arith
digit-le false = omega arith

stored_sum :
    (r : Register)
    → stored r
      ≡ digit r.p6
        + digit r.p5 * 2
        + digit r.p4 * 4
        + digit r.p3 * 8
        + digit r.p2 * 16
        + digit r.p1 * 32
        + digit r.p0 * 64
unfolding stored
stored_sum r = refl

stored_half :
    (r : Register)
    → stored r / 2
      ≡ digit r.p5
        + digit r.p4 * 2
        + digit r.p3 * 4
        + digit r.p2 * 8
        + digit r.p1 * 16
        + digit r.p0 * 32
unfolding stored
stored_half r = omega (arith, digit-le r.p6)

stored_fourth : (r : Register) → stored r / 2 / 4 % 2 ≡ digit r.p3
stored_fourth r = omega (arith, stored_half r, digit-le r.p5, digit-le r.p4, digit-le r.p3)

stored_half-lt : (r : Register) → stored r / 2 < 64
stored_half-lt r = omega (
  arith,
  stored_half r,
  digit-le r.p5,
  digit-le r.p4,
  digit-le r.p3,
  digit-le r.p2,
  digit-le r.p1,
  digit-le r.p0,
)

stored-clock :
    (r : Register) → (if r.p6 then bit_xor (stored r) 0x88 / 2 else stored r / 2) ≡ stored (clock r)
unfolding clock xor
stored-clock r = ground (
  arith,
  half-bit_xor (stored r) 0x88,
  toggle (stored r / 2) (stored_half-lt r),
  stored_fourth r,
  stored_half r,
  stored_sum (clock r),
)

stored_low : (r : Register) → bit_and (stored r) 1 ≡ digit r.p6
stored_low r = and-low 1 (stored r) ∙ unfold stored in ground arith

top_table : all_below 64 (λ x. bit_or x 0x40 == x + 64) ≡ true
unfolding all_below
top_table = refl

stored-init : (channel : ℕ) → bit_or (bit_and channel 0x3f) 0x40 ≡ stored (init channel)
unfolding stored init
stored-init channel =
    ap (λ (n : ℕ). bit_or n 0x40) (and-low 6 channel)
    ∙ (==_iff _ _).0 (all_below_sound 64 _ (channel % 64) top_table (omega arith))
    ∙ ground arith

output_bit-stored :
    (bit : ℕ) (o : Output)
    → whiten_bit bit (record { lfsr = stored o.register; value = o.octet })
      ≡ record { lfsr = stored (output_bit bit o).register; value = (output_bit bit o).octet }
unfolding whiten_bit output_bit
output_bit-stored bit o = ground (arith, stored_low o.register, stored-clock o.register)

image : Output → Whitener
image o = record { lfsr = stored o.register; value = o.octet }

image_bit : (i : ℕ) (o : Output) → whiten_bit i (image o) ≡ image (output_bit i o)
unfolding image
image_bit i o = output_bit-stored i o

rounds_stored :
    (k i : ℕ) (o : Output) → for_range k i whiten_bit (image o) ≡ image (for_range k i output_bit o)
rounds_stored zero i o = refl
rounds_stored (suc k) i o =
    ap (for_range k (suc i) whiten_bit) (image_bit i o) ∙ rounds_stored k (suc i) (output_bit i o)

whiten_octets-core :
    (r : Register) (octets : List ℕ) → whiten_octets (stored r) octets ≡ whiten_core r octets
unfolding whiten_octets whiten_core whiten_octet image
whiten_octets-core r [] = refl
whiten_octets-core r (octet ∷ rest) =
    ap (λ (w : Whitener). w.value ∷ whiten_octets w.lfsr rest)
      (rounds_stored 8 0 (record { register = r; octet = octet }))
    ∙ ap (◌∷◌ after.octet) (whiten_octets-core after.register rest)
  where
    after : Output
    after = for_range 8 0 output_bit (record { register = r; octet = octet })

-- On every channel index and every list of octets the code computes what the register of the
-- Core specification does, that is seeded with the channel index.
pub apply-whiten_core :
    (channel : ℕ) (octets : List ℕ) → apply channel octets ≡ whiten_core (init channel) octets
unfolding apply
apply-whiten_core channel octets =
    ap (λ (n : ℕ). whiten_octets n octets) (stored-init channel)
    ∙ whiten_octets-core (init channel) octets
