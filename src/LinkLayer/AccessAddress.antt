-- ===== src/LinkLayer/AccessAddress.antt =====
-- The access address of a connection: crates/ble-controller/src/link_layer.rs, lines 667 to 719.
pub mod Runs
use ch58x_hal.Base.{ℕ, zero, suc, ◌+◌, ◌-◌, ◌/◌, ◌%◌, ◌^◌, Bool, true, false, not, ◌&&◌, ◌||◌}
use ch58x_hal.Base.{ltb, ◌==◌, if◌then◌else◌, bit_and, bit_xor, ◌>>>◌}
use ch58x_hal.LinkLayer.ControlPdu.{count_ones}

abbrev pub adv_access_address : ℕ
adv_access_address = 0x8e89bed6

unfoldable pub transition_count : ℕ → ℕ → ℕ
transition_count value bits =
    let mask = if bits == 32 then 2 ^ 31 - 1 else 2 ^ (bits - 1) - 1 in
    count_ones 32 (bit_and (bit_xor value (value >>> 1)) mask)

-- `(access_address >> bit) & 1`.
abbrev pub bit_at : ℕ → ℕ → ℕ
bit_at address bit = bit_and (address >>> bit) 1

-- The `while` loop on `bit`, by the rounds that are left: `false` is `return false`.
unfoldable pub runs_are_short : ℕ → ℕ → ℕ → ℕ → ℕ → Bool
runs_are_short address zero bit previous run = true
runs_are_short address (suc rounds) bit previous run =
    let current = bit_at address bit in
    let same = runs_are_short address rounds (bit + 1) previous (run + 1) in
    let changed = runs_are_short address rounds (bit + 1) current 1 in
    if current == previous then (if ltb 6 (run + 1) then false else same) else changed

abbrev octets_are_equal : ℕ → Bool
octets_are_equal address =
    address % 256 == address / 256 % 256
    && (address / 256 % 256 == address / 65536 % 256
        && address / 65536 % 256 == address / 16777216 % 256)

unfoldable pub data_access_address_is_valid : ℕ → Bool → Bool
data_access_address_is_valid address coded_phy =
    if address == adv_access_address || count_ones 32 (bit_xor address adv_access_address) == 1
    then false
    else if octets_are_equal address
    then false
    else if not (runs_are_short address 31 1 (bit_and address 1) 1)
    then false
    else if ltb 24 (transition_count address 32) || ltb (transition_count (address >>> 26) 6) 2
    then false
    else not (
        coded_phy
        && (ltb (count_ones 8 (bit_and address 0xff)) 3
            || ltb 11 (transition_count (bit_and address 0xffff) 16)))
