-- ===== src/Advertising/Address.antt =====
-- The addresses of devices, in crates/ble-controller/src/advertising.rs.
use ch58x_hal.Base.{ℕ, ◌+◌, Bool, true, false, ◌&&◌, ◌||◌}
use ch58x_hal.Base.{List, at}
use ch58x_hal.Base.{◌==◌, ◌!=◌, if◌then◌else◌, bit_and}
use ch58x_hal.Base.{Result, ok, err}
use ch58x_hal.Radio.{Error, invalid_packet}

abbrev pub max_legacy_adv_data_len : ℕ
max_legacy_adv_data_len = 31

abbrev pub max_legacy_adv_pdu_len : ℕ
max_legacy_adv_pdu_len = 2 + 6 + 31

abbrev pub connect_ind_payload_len : ℕ
connect_ind_payload_len = 34

pub data AddressKind : Type 0 where
  public_kind random_kind : AddressKind

abbrev pub is_random : AddressKind → Bool
is_random public_kind = false
is_random random_kind = true

pub record DeviceAddress : Type 0 where
  pub bytes : List ℕ
  pub kind : AddressKind

unfoldable pub random_static : List ℕ → Result DeviceAddress Error
random_static bytes =
    let all_zero =
      at bytes 0 == 0
      && (at bytes 1 == 0
          && (at bytes 2 == 0
              && (at bytes 3 == 0 && (at bytes 4 == 0 && bit_and (at bytes 5) 0x3f == 0)))) in
    let all_one =
      at bytes 0 == 0xff
      && (at bytes 1 == 0xff
          && (at bytes 2 == 0xff
              && (at bytes 3 == 0xff
                  && (at bytes 4 == 0xff && bit_and (at bytes 5) 0x3f == 0x3f)))) in
    if bit_and (at bytes 5) 0xc0 != 0xc0 || (all_zero || all_one)
    then err invalid_packet
    else ok (record { bytes = bytes; kind = random_kind })
