-- ===== src/Hci.antt =====
-- The HCI input validation of crates/ble-controller/src/hci.rs.
pub mod Parameters
pub mod Events
use ch58x_hal.Base.{
  ℕ, ◌+◌, ◌-◌, ◌*◌, ◌/◌, ◌%◌, ◌^◌, Bool, true, false, not, ◌&&◌, ◌||◌, Option, none, some,
}
use ch58x_hal.Base.{
  List, [], ◌∷◌, length, at, ltb, leb, ◌==◌, ◌!=◌, if◌then◌else◌, has_bits, u8, bit_and,
}
use ch58x_hal.Base.{◌<<<◌, u16_from_le}

pub record AdvertisingParameters : Type 0 where
  pub interval_us : ℕ
  pub channels : List Bool

-- `params[13] & !7`, on an octet.
abbrev pub above_channels : ℕ → ℕ
above_channels n = bit_and n 0xf8

unfoldable pub parse : List ℕ → Option AdvertisingParameters
parse params =
    if length params != 15
    then none
    else let minimum = u16_from_le (at params 0) (at params 1) in
      let maximum = u16_from_le (at params 2) (at params 3) in
      if not (leb 0x20 minimum && leb minimum 0x4000)
        || (not (leb minimum maximum && leb maximum 0x4000)
            || (at params 4 != 0
                || (at params 5 != 1
                    || (ltb 1 (at params 6)
                        || (at params 13 == 0
                            || (above_channels (at params 13) != 0 || at params 14 != 0))))))
      then none
      else some (record {
        interval_us = minimum * 625;
        channels =
            has_bits (at params 13) 1 ∷ has_bits (at params 13) 2 ∷ has_bits (at params 13) 4 ∷ [];
      })

-- `params.first().is_some_and(..)`.
abbrev pub subevent_enabled : ℕ → List ℕ → Bool
subevent_enabled le_mask [] = false
subevent_enabled le_mask (subevent ∷ rest) =
    subevent != 0 && (leb subevent 64 && has_bits le_mask (1 <<< (subevent - 1)))

unfoldable pub event_enabled : ℕ → ℕ → ℕ → List ℕ → Bool
event_enabled mask le_mask code params =
    if code == 0x0e || (code == 0x0f || code == 0x13)
    then true
    else if code == 0 || (ltb 64 code || not (has_bits mask (1 <<< (code - 1))))
    then false
    else if code == 0x3e
    then subevent_enabled le_mask params
    else true
