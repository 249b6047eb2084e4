-- ===== src/Phy/Whitening.antt =====
-- crates/ble-controller/src/whitening.rs.
pub mod Involution
pub mod Core
use ch58x_hal.Base.{ℕ, List, [], ◌∷◌, bit_and, bit_or, bit_xor, ◌<<<◌, ◌>>>◌, ◌!=◌, if◌then◌else◌}
use ch58x_hal.Base.{for_range}

-- The two variables that the inner loop changes.
pub record Whitener : Type 0 where
  pub lfsr : ℕ
  pub value : ℕ

pub whiten_bit : ℕ → Whitener → Whitener
whiten_bit bit w =
    if bit_and w.lfsr 1 != 0
    then record { lfsr = bit_xor w.lfsr 0x88 >>> 1; value = bit_xor w.value (1 <<< bit) }
    else record w { lfsr = w.lfsr >>> 1 }

pub whiten_octet : ℕ → ℕ → Whitener
whiten_octet lfsr byte = for_range 8 0 whiten_bit (record { lfsr = lfsr; value = byte })

pub whiten_octets : ℕ → List ℕ → List ℕ
whiten_octets lfsr [] = []
whiten_octets lfsr (byte ∷ rest) =
    let w = whiten_octet lfsr byte in w.value ∷ whiten_octets w.lfsr rest

unfoldable pub apply : ℕ → List ℕ → List ℕ
unfolding whiten_bit whiten_octet whiten_octets
apply channel octets = whiten_octets (bit_or (bit_and channel 0x3f) 0x40) octets
