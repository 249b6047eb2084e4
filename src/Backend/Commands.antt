-- ===== src/Backend/Commands.antt =====
-- The commands of the host: crates/ch58x-ble/src/link_layer/hci.rs, with the advertiser of
-- crates/ch58x-ble/src/link_layer.rs. The generator of random octets is a parameter.
pub mod Structures
use ch58x_hal.Base.{
  ℕ, zero, suc, ◌+◌, ◌*◌, ◌-◌, ◌^◌, Bool, true, false, not, ◌&&◌, ◌||◌, Option, none, some,
}
use ch58x_hal.Base.{
  List, [], ◌∷◌, ◌++◌, length, at, take, drop, replicate, bytes_eq, ltb, leb, ◌==◌, ◌!=◌,
}
use ch58x_hal.Base.{if◌then◌else◌, is_some, u16_from_le, u16_to_le, Result, ok, err}
use ch58x_hal.LinkLayer.AccessAddress.{adv_access_address}
use ch58x_hal.LinkLayer.Timing.{connection_parameter_range_is_valid}
use ch58x_hal.LinkLayer.ControlPdu.{ConnectionParamPdu, write, request_opcode}
use ch58x_hal.Llcp.Procedure.{termination, connection_parameters}
use ch58x_hal.Advertising.Address.{DeviceAddress, random_kind, random_static}
use ch58x_hal.Advertising.Legacy.{AdvertisingData, push}
use ch58x_hal.Advertising.Legacy
use ch58x_hal.Radio.{Error}
use ch58x_hal.Hci.{AdvertisingParameters, parse}
use ch58x_hal.Backend.Transport.{Host, command_complete, command_status}
use ch58x_hal.Backend.Connection.{
  ActiveConnection, hci_success, hci_unknown_command, hci_command_disallowed,
  hci_invalid_parameters, hci_controller_busy,
}
use ch58x_hal.Backend.Control.{
  local_procedure_active, remote_connection_parameters_active, queue_local_procedure,
  queue_local_procedure_request,
}

pub record Advertiser : Type 0 where
  pub address : DeviceAddress
  pub interval : ℕ
  pub channels : List Bool
  pub ad_data : AdvertisingData
  pub scan_response : AdvertisingData
  pub enabled : Bool

-- The address passes the test of `random_static`, so that the `unwrap` does not fail.
unfoldable pub default_advertiser : Advertiser
unfolding Legacy.new
default_advertiser = record {
  address = record { bytes = 0x82 ∷ 0x58 ∷ 0x2a ∷ 0x01 ∷ 0x00 ∷ 0xc0 ∷ []; kind = random_kind };
  interval = 200_000;
  channels = replicate 3 true;
  ad_data = Legacy.new;
  scan_response = Legacy.new;
  enabled = false;
}

-- What the functions that set a part of the advertiser return: return data or a status.
abbrev pub Set : Type 0
Set = Advertiser × Result (List ℕ) ℕ

abbrev set_address : Advertiser → Result DeviceAddress Error → Set
set_address a (ok address) = (record a { address = address }, ok [])
set_address a (err e) = (a, err hci_invalid_parameters)

unfoldable pub set_random_address : Advertiser → List ℕ → Set
unfolding random_static
set_random_address a params =
    if a.enabled
    then (a, err hci_command_disallowed)
    else if length params != 6
    then (a, err hci_invalid_parameters)
    else set_address a (random_static params)

abbrev set_parsed : Advertiser → Option AdvertisingParameters → Set
set_parsed a none = (a, err hci_invalid_parameters)
set_parsed a (some parsed) =
    (record a { interval = parsed.interval_us; channels = parsed.channels }, ok [])

unfoldable pub set_advertising_parameters : Advertiser → List ℕ → Set
unfolding parse
set_advertising_parameters a params =
    if a.enabled then (a, err hci_command_disallowed) else set_parsed a (parse params)

abbrev pub pushed :
    (AdvertisingData → Result AdvertisingData ℕ)
    → AdvertisingData × Result (Unit {0}) Error
    → Result AdvertisingData ℕ
pushed next (d, ok done) = next d
pushed next (d, err e) = err hci_invalid_parameters

-- The loop over the encoded structures. The list is `bytes` without the octets behind the cursor, but
-- for the next `skip`, which `cursor += len + 1` passes over.
unfoldable pub copy_structures : ℕ → List ℕ → AdvertisingData → Result AdvertisingData ℕ
unfolding push
copy_structures skip [] replacement = ok replacement
copy_structures (suc skip) (octet ∷ rest) replacement = copy_structures skip rest replacement
copy_structures zero (len ∷ rest) replacement =
    let following =
      pushed (copy_structures len rest)
        (push replacement (at rest 0) (take (len - 1) (drop 1 rest))) in
    if len == 0
    then ok replacement
    else if ltb (length rest) len
    then err hci_invalid_parameters
    else following

-- The data in use afterwards, with the result.
abbrev pub replace_data :
    AdvertisingData → Result AdvertisingData ℕ → AdvertisingData × Result (List ℕ) ℕ
replace_data target (ok replacement) = (replacement, ok [])
replace_data target (err e) = (target, err e)

unfoldable pub set_advertising_data : AdvertisingData → List ℕ → AdvertisingData × Result (List ℕ) ℕ
unfolding copy_structures Legacy.new
set_advertising_data target params =
    if length params != 32 || ltb 31 (at params 0)
    then (target, err hci_invalid_parameters)
    else replace_data target (copy_structures 0 (take (at params 0) (drop 1 params)) Legacy.new)

-- `connected` is the flag `LINK_CONNECTED`.
unfoldable pub set_advertising_enable : Bool → Advertiser → List ℕ → Set
set_advertising_enable connected a params =
    if length params != 1 || ltb 1 (at params 0)
    then (a, err hci_invalid_parameters)
    else if at params 0 != 0 && connected
    then (a, err hci_command_disallowed)
    else (record a { enabled = at params 0 != 0 }, ok [])

-- The runner: the registers of the radio that it sets, the generator and the advertiser.
pub record Runner (Random : Type 0) : Type 0 where
  pub access_address : ℕ
  pub crc_init : ℕ
  pub random : Random
  pub advertiser : Advertiser

abbrev pub adv_crc_init : ℕ
adv_crc_init = 0x555555

-- `u64::from_le_bytes`.
abbrev pub u64_from_le : List ℕ → ℕ
u64_from_le [] = 0
u64_from_le (octet ∷ rest) = octet + 256 * u64_from_le rest

-- A packet whose length octet is wrong is dropped.
abbrev pub is_malformed : List ℕ → Bool
is_malformed bytes = ltb (length bytes) 3 || length bytes != 3 + at bytes 2

abbrev pub opcode_of : List ℕ → ℕ
opcode_of bytes = u16_from_le (at bytes 0) (at bytes 1)

module _ {Random : Type 0} (fill_bytes : Random → Random × List ℕ) where
  abbrev pub Answer : Type 0
  Answer = Runner Random × Host

  abbrev complete : ℕ → Runner Random → Host → Result (List ℕ) ℕ → Answer
  complete opcode r h (ok return_data) = (r, command_complete opcode hci_success return_data h)
  complete opcode r h (err status) = (r, command_complete opcode status [] h)

  abbrev advertised : ℕ → Runner Random → Host → Set → Answer
  advertised opcode r h (a, result) = complete opcode (record r { advertiser = a }) h result

  abbrev replaced_data : ℕ → Runner Random → Host → AdvertisingData × Result (List ℕ) ℕ → Answer
  replaced_data opcode r h (d, result) =
      complete opcode (record r { advertiser = record r.advertiser { ad_data = d } }) h result

  abbrev replaced_scan : ℕ → Runner Random → Host → AdvertisingData × Result (List ℕ) ℕ → Answer
  replaced_scan opcode r h (d, result) =
      complete opcode (record r { advertiser = record r.advertiser { scan_response = d } }) h result

  abbrev drawn : ℕ → Runner Random → Host → Random × List ℕ → Answer
  drawn opcode r h (random, octets) =
      (record r { random = random }, command_complete opcode hci_success octets h)

  -- The arms of the `match` on the opcode with their guards, in order.
  unfoldable pub answer_command : Bool → ℕ → List ℕ → Runner Random → Host → Answer
  unfolding command_complete command_status set_random_address set_advertising_parameters
      set_advertising_data set_advertising_enable
  answer_command connected opcode params r h =
      if opcode == 0x0c03 && length params == 0
      then complete opcode
          (record r {
            access_address = adv_access_address;
            crc_init = adv_crc_init;
            advertiser = record r.advertiser { enabled = false };
          })
          (record h { event_mask = 2 ^ 64 - 1; le_event_mask = 0x1f }) (ok [])
      else if (opcode == 0x0c01 || opcode == 0x2001) && length params == 8
      then complete opcode r
          (if opcode == 0x0c01
            then record h { event_mask = u64_from_le params }
            else record h { le_event_mask = u64_from_le params })
          (ok [])
      else if opcode == 0x0c31 && bytes_eq params (0 ∷ [])
      then complete opcode r h (ok [])
      else if opcode == 0x1009 && length params == 0
      then complete opcode r h (ok (replicate 6 0))
      else if opcode == 0x2002 && length params == 0
      then complete opcode r h (ok (0x1b ∷ 0x00 ∷ 5 ∷ []))
      else if opcode == 0x2003 && length params == 0
      then complete opcode r h (ok (0x06 ∷ replicate 7 0))
      else if opcode == 0x2005
      then advertised opcode r h (set_random_address r.advertiser params)
      else if opcode == 0x2006
      then advertised opcode r h (set_advertising_parameters r.advertiser params)
      else if opcode == 0x2008
      then replaced_data opcode r h (set_advertising_data r.advertiser.ad_data params)
      else if opcode == 0x2009
      then replaced_scan opcode r h (set_advertising_data r.advertiser.scan_response params)
      else if opcode == 0x200a
      then advertised opcode r h (set_advertising_enable connected r.advertiser params)
      else if opcode == 0x200f && length params == 0
      then complete opcode r h (ok (0 ∷ []))
      else if opcode == 0x2010 && length params == 0
      then complete opcode r h (ok [])
      else if opcode == 0x2018 && length params == 0
      then drawn opcode r h (fill_bytes r.random)
      else if opcode == 0x2039
      then complete opcode r h (err hci_command_disallowed)
      else if opcode == 0x200d
      then (r, command_status opcode hci_command_disallowed h)
      else if opcode == 0x2013 || (opcode == 0x2019 || opcode == 0x2032)
      then (r, command_status opcode hci_command_disallowed h)
      else complete opcode r h (err hci_unknown_command)

  unfoldable pub handle_command : Bool → List ℕ → Runner Random → Host → Answer
  unfolding answer_command
  handle_command connected bytes r h =
      if is_malformed bytes
      then (r, h)
      else answer_command connected (opcode_of bytes) (drop 3 bytes) r h
