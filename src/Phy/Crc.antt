-- ===== src/Phy/Crc.antt =====
-- crates/ble-controller/src/crc.rs.
pub mod Step
pub mod Burst
use ch58x_hal.Base.{ℕ, zero, suc, List, [], ◌∷◌, bit_and, bit_xor, u8, u32, ◌<<<◌, ◌>>>◌, ◌!=◌}
use ch58x_hal.Base.{if◌then◌else◌, for_range}

-- The inner loop's round for bit `bit` of `byte`.
pub crc_bit : ℕ → ℕ → ℕ → ℕ
crc_bit byte bit state =
    let input = bit_and (byte >>> bit) 1 in
    let feedback = bit_xor (u8 (state >>> 23)) input in
    let shifted = bit_and (u32 (state <<< 1)) 0x00ff_ffff in
    if feedback != 0 then bit_xor shifted 0x0000_065b else shifted

pub crc_octet : ℕ → ℕ → ℕ
crc_octet byte state = for_range 8 0 (crc_bit byte) state

pub crc_octets : List ℕ → ℕ → ℕ
crc_octets [] state = state
crc_octets (byte ∷ rest) state = crc_octets rest (crc_octet byte state)

unfoldable pub crc24 : List ℕ → ℕ → ℕ
unfolding crc_bit crc_octet crc_octets
crc24 message init = crc_octets message (bit_and init 0x00ff_ffff)
