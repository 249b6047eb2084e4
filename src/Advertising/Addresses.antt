-- ===== src/Advertising/Addresses.antt =====
-- The addresses of devices.
use ch58x_hal.Base.{ℕ, ◌+◌, ◌-◌, ◌*◌, ◌/◌, ◌%◌, ◌^◌, ◌≤◌, ◌<◌, ◌≡◌, ◌≢◌, ◌↔◌, refl, sym, ◌∙◌}
use ch58x_hal.Base.{arith, Bool, true, false, not, List, [], ◌∷◌, length, All}
use ch58x_hal.Base.{IsByte, bit_and, ◌==◌, leb, all_below, all_below_sound, ok}
use ch58x_hal.Base.Bits.Mask.{and-low}
use ch58x_hal.Advertising.Address.{random_kind, random_static}

-- The 48 bits of an address, the least significant octet first.
abbrev pub value_of : List ℕ → ℕ
value_of [] = 0
value_of (octet ∷ rest) = octet + 256 * value_of rest

-- The two most significant bits are set, and of the 46 others one is set and one is not.
pub record IsRandomStatic (bytes : List ℕ) : Type 0 where
  pub top : value_of bytes / 2 ^ 46 ≡ 3
  pub some_set : value_of bytes % 2 ^ 46 ≢ 0
  pub some_clear : value_of bytes % 2 ^ 46 ≢ 2 ^ 46 - 1

abbrev bool_eq : Bool → Bool → Bool
bool_eq true b = b
bool_eq false b = not b

top_test : (n : ℕ) → n < 256 → ((bit_and n 0xc0 == 0xc0) ≡ true) ↔ (192 ≤ n)
unfolding all_below
top_test n lt = ((λ h. ground (arith, fact)), (λ h. ground (arith, fact)))
  where
    test : ℕ → Bool
    test k = bool_eq (bit_and k 0xc0 == 0xc0) (leb 192 k)

    fact : test n ≡ true
    fact = all_below_sound 256 test n refl lt

parts :
    (a b c d e f : ℕ)
    → a < 256
    → b < 256
    → c < 256
    → d < 256
    → e < 256
    → f < 256
    → (value_of (a ∷ b ∷ c ∷ d ∷ e ∷ f ∷ []) / 2 ^ 46 ≡ f / 64)
      × (value_of (a ∷ b ∷ c ∷ d ∷ e ∷ f ∷ []) % 2 ^ 46
          ≡ a + 256 * (b + 256 * (c + 256 * (d + 256 * (e + 256 * (f % 64))))))
parts a b c d e f p q r s t u = (omega arith, omega arith)

module _ (a b c d e f : ℕ) (p : a < 256) (q : b < 256) (r : c < 256) (s : d < 256) (t : e < 256)
    (u : f < 256) where
  forth :
      random_static (a ∷ b ∷ c ∷ d ∷ e ∷ f ∷ [])
        ≡ ok (record { bytes = a ∷ b ∷ c ∷ d ∷ e ∷ f ∷ []; kind = random_kind })
      → IsRandomStatic (a ∷ b ∷ c ∷ d ∷ e ∷ f ∷ [])
  unfolding random_static
  forth h =
      let value = parts a b c d e f p q r s t u in
      record {
        top = ground (arith, top_test f u, value.0);
        some_set = λ z. ground (arith, and-low 6 f, zeros (sym value.1 ∙ z));
        some_clear = λ z. ground (arith, and-low 6 f, ones (sym value.1 ∙ z));
      }
    where
      zeros :
          a + 256 * (b + 256 * (c + 256 * (d + 256 * (e + 256 * (f % 64))))) ≡ 0
          → (a ≡ 0) × (b ≡ 0) × (c ≡ 0) × (d ≡ 0) × (e ≡ 0) × (f % 64 ≡ 0)
      zeros z = (omega arith, omega arith, omega arith, omega arith, omega arith, omega arith)

      ones :
          a + 256 * (b + 256 * (c + 256 * (d + 256 * (e + 256 * (f % 64))))) ≡ 2 ^ 46 - 1
          → (a ≡ 255) × (b ≡ 255) × (c ≡ 255) × (d ≡ 255) × (e ≡ 255) × (f % 64 ≡ 63)
      ones z = (omega arith, omega arith, omega arith, omega arith, omega arith, omega arith)

  back :
      IsRandomStatic (a ∷ b ∷ c ∷ d ∷ e ∷ f ∷ [])
      → random_static (a ∷ b ∷ c ∷ d ∷ e ∷ f ∷ [])
        ≡ ok (record { bytes = a ∷ b ∷ c ∷ d ∷ e ∷ f ∷ []; kind = random_kind })
  unfolding random_static
  back h =
      let value = parts a b c d e f p q r s t u in
      ground (arith, top_test f u, and-low 6 f, not_zero value.1, not_ones value.1, high value.0)
    where
      low : ℕ
      low = a + 256 * (b + 256 * (c + 256 * (d + 256 * (e + 256 * (f % 64)))))

      high : value_of (a ∷ b ∷ c ∷ d ∷ e ∷ f ∷ []) / 2 ^ 46 ≡ f / 64 → 192 ≤ f
      high v = omega (arith, h.top)

      not_zero :
          value_of (a ∷ b ∷ c ∷ d ∷ e ∷ f ∷ []) % 2 ^ 46 ≡ low
          → a ≡ 0
          → b ≡ 0
          → c ≡ 0
          → d ≡ 0
          → e ≡ 0
          → f % 64 ≡ 0
          → ⊥
      not_zero v za zb zc zd ze zf = h.some_set (v ∙ omega arith)

      not_ones :
          value_of (a ∷ b ∷ c ∷ d ∷ e ∷ f ∷ []) % 2 ^ 46 ≡ low
          → a ≡ 255
          → b ≡ 255
          → c ≡ 255
          → d ≡ 255
          → e ≡ 255
          → f % 64 ≡ 63
          → ⊥
      not_ones v za zb zc zd ze zf = h.some_clear (v ∙ omega arith)

-- Of six octets exactly those make a random static address whose two most significant bits are set
-- and whose 46 other bits are neither all clear nor all set.
pub random_static_iff :
    (bytes : List ℕ)
    → length bytes ≡ 6
    → All IsByte bytes
    → (random_static bytes ≡ ok (record { bytes = bytes; kind = random_kind }))
      ↔ IsRandomStatic bytes
random_static_iff (a ∷ b ∷ c ∷ d ∷ e ∷ f ∷ []) size o = (
  forth a b c d e f o.0 o.1.0 o.1.1.0 o.1.1.1.0 o.1.1.1.1.0 o.1.1.1.1.1.0,
  back a b c d e f o.0 o.1.0 o.1.1.0 o.1.1.1.0 o.1.1.1.1.0 o.1.1.1.1.1.0,
)
random_static_iff _ size o = absurd (omega arith)
