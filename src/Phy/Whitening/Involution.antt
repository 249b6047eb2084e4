-- ===== src/Phy/Whitening/Involution.antt =====
-- The whitening of whitening.rs undoes itself: its masks depend on the register only.
use ch58x_hal.Base.{ℕ, zero, suc, ◌/◌, ◌≡◌, refl, sym, ap, ap₂, ◌∙◌}
use ch58x_hal.Base.{arith, List, [], ◌∷◌, bit_and, bit_xor, for_range, ◌!=◌, if◌then◌else◌}
use ch58x_hal.Base.{◌<<<◌}
use ch58x_hal.Base.Bits.Xor.{xor_twice, xor_right_comm}
use ch58x_hal.Phy.Whitening.{Whitener, whiten_bit, whiten_octet, whiten_octets, apply}

-- How the register goes on depends on the register only.
advance : ℕ → ℕ
advance lfsr = if bit_and lfsr 1 != 0 then bit_xor lfsr 0x88 / 2 else lfsr / 2

mask : ℕ → ℕ → ℕ → ℕ
mask bit lfsr value = if bit_and lfsr 1 != 0 then bit_xor value (1 <<< bit) else value

whiten_bit_parts :
    (bit : ℕ) (w : Whitener)
    → whiten_bit bit w ≡ record { lfsr = advance w.lfsr; value = mask bit w.lfsr w.value }
unfolding whiten_bit advance mask
whiten_bit_parts bit w = ground arith

mask_twice : (bit lfsr value : ℕ) → mask bit lfsr (mask bit lfsr value) ≡ value
unfolding mask
mask_twice bit lfsr value = ground (arith, xor_twice value (1 <<< bit))

mask_comm : (b c l m value : ℕ) → mask b l (mask c m value) ≡ mask c m (mask b l value)
unfolding mask
mask_comm b c l m value = ground (arith, xor_right_comm value (1 <<< c) (1 <<< b))

-- The masks of `k` rounds, in two parts: the register, and what happens to the octet.
advances : ℕ → ℕ → ℕ
advances zero lfsr = lfsr
advances (suc k) lfsr = advances k (advance lfsr)

masks : ℕ → ℕ → ℕ → ℕ → ℕ
masks zero i lfsr value = value
masks (suc k) i lfsr value = masks k (suc i) (advance lfsr) (mask i lfsr value)

whiten_rounds :
    (k i lfsr value : ℕ)
    → for_range k i whiten_bit (record { lfsr = lfsr; value = value })
      ≡ record { lfsr = advances k lfsr; value = masks k i lfsr value }
unfolding advances masks
whiten_rounds zero i lfsr value = refl
whiten_rounds (suc k) i lfsr value =
    ap (for_range k (suc i) whiten_bit) (whiten_bit_parts i (record { lfsr = lfsr; value = value }))
    ∙ whiten_rounds k (suc i) (advance lfsr) (mask i lfsr value)

masks-mask :
    (k i lfsr b l value : ℕ) → masks k i lfsr (mask b l value) ≡ mask b l (masks k i lfsr value)
unfolding masks
masks-mask zero i lfsr b l value = refl
masks-mask (suc k) i lfsr b l value =
    ap (masks k (suc i) (advance lfsr)) (mask_comm i b lfsr l value)
    ∙ masks-mask k (suc i) (advance lfsr) b l (mask i lfsr value)

masks_twice : (k i lfsr value : ℕ) → masks k i lfsr (masks k i lfsr value) ≡ value
unfolding masks
masks_twice zero i lfsr value = refl
masks_twice (suc k) i lfsr value =
    ap (masks k (suc i) (advance lfsr)) (sym (masks-mask k (suc i) (advance lfsr) i lfsr _))
    ∙ masks_twice k (suc i) (advance lfsr) (mask i lfsr (mask i lfsr value))
    ∙ mask_twice i lfsr value

whiten_octet_parts :
    (lfsr byte : ℕ)
    → whiten_octet lfsr byte ≡ record { lfsr = advances 8 lfsr; value = masks 8 0 lfsr byte }
unfolding whiten_octet
whiten_octet_parts lfsr byte = whiten_rounds 8 0 lfsr byte

whiten_octets_cons :
    (lfsr byte : ℕ) (rest : List ℕ)
    → whiten_octets lfsr (byte ∷ rest) ≡ masks 8 0 lfsr byte ∷ whiten_octets (advances 8 lfsr) rest
unfolding whiten_octets
whiten_octets_cons lfsr byte rest =
    ap (λ (w : Whitener). w.value ∷ whiten_octets w.lfsr rest) (whiten_octet_parts lfsr byte)

whiten_octets_twice :
    (lfsr : ℕ) (octets : List ℕ) → whiten_octets lfsr (whiten_octets lfsr octets) ≡ octets
whiten_octets_twice lfsr [] = unfold whiten_octets in refl
whiten_octets_twice lfsr (byte ∷ rest) =
    ap (whiten_octets lfsr) (whiten_octets_cons lfsr byte rest)
    ∙ whiten_octets_cons lfsr _ _
    ∙ ap₂ ◌∷◌ (masks_twice 8 0 lfsr byte) (whiten_octets_twice (advances 8 lfsr) rest)

-- Whitening a PDU twice on one channel gives it back, whatever its octets are.
pub apply_twice : (channel : ℕ) (octets : List ℕ) → apply channel (apply channel octets) ≡ octets
unfolding apply
apply_twice channel octets = whiten_octets_twice _ octets
