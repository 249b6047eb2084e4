-- ===== src/Advertising/Legacy.antt =====
-- The advertising and scan PDUs of crates/ble-controller/src/advertising.rs. An `output` array is a
-- list of its length; a packet or payload is a list of octets.
use ch58x_hal.Base.{ℕ, zero, suc, ◌+◌, ◌-◌, Bool, not, ◌&&◌, ◌||◌}
use ch58x_hal.Base.{
  Option, none, some, List, [], ◌∷◌, length, at, take, drop, set, replicate, bytes_eq,
}
use ch58x_hal.Base.{ltb, leb, ◌==◌, ◌!=◌, if◌then◌else◌, bit_and, bit_or, has_bits, ◌<<<◌, u8}
use ch58x_hal.Base.{Result, ok, err}
use ch58x_hal.Radio.{Error, invalid_packet}
use ch58x_hal.Advertising.Address.{AddressKind, public_kind, random_kind, is_random, DeviceAddress}

pub record LegacyAdvertisement : Type 0 where
  pub event_type : ℕ
  pub address : DeviceAddress
  pub ad_data : List ℕ

-- The arms of the `match` on the PDU type: event type and offset of the data.
unfoldable pub pdu_layout : ℕ → ℕ → Option (ℕ × ℕ)
pdu_layout pdu_type payload_len =
    if pdu_type == 0x00
    then some (0, 8)
    else if pdu_type == 0x01 && payload_len == 12
    then some (1, 14)
    else if pdu_type == 0x02
    then some (3, 8)
    else if pdu_type == 0x04
    then some (4, 8)
    else if pdu_type == 0x06
    then some (2, 8)
    else none

abbrev pub address_kind : ℕ → AddressKind
address_kind header = if has_bits header (1 <<< 6) then random_kind else public_kind

abbrev pub advertisement_at : Option (ℕ × ℕ) → List ℕ → ℕ → Result LegacyAdvertisement Error
advertisement_at none packet payload_len = err invalid_packet
advertisement_at (some (event_type, data_offset)) packet payload_len = ok (record {
  event_type = event_type;
  address = record { bytes = take 6 (drop 2 packet); kind = address_kind (at packet 0) };
  ad_data = take (payload_len + 2 - data_offset) (drop data_offset packet);
})

unfoldable pub parse_legacy_advertisement : List ℕ → Result LegacyAdvertisement Error
parse_legacy_advertisement packet =
    if ltb (length packet) 8
    then err invalid_packet
    else let payload_len = bit_and (at packet 1) 0x3f in
      if not (leb 6 payload_len && leb payload_len 37) || length packet != payload_len + 2
      then err invalid_packet
      else advertisement_at (pdu_layout (bit_and (at packet 0) 0x0f) payload_len) packet payload_len

-- `slice[offset..offset + values.len()].copy_from_slice(values)`.
abbrev pub write_at : List ℕ → ℕ → List ℕ → List ℕ
write_at [] offset values = []
write_at (x ∷ xs) (suc offset) values = x ∷ write_at xs offset values
write_at (x ∷ xs) zero [] = x ∷ xs
write_at (x ∷ xs) zero (v ∷ values) = v ∷ write_at xs zero values

pub record AdvertisingData : Type 0 where
  pub bytes : List ℕ
  pub len : ℕ

unfoldable pub new : AdvertisingData
new = record { bytes = replicate 31 0; len = 0 }

-- The `checked_add`s fail only past the range of `usize`, where the second test fails as well.
unfoldable pub push : AdvertisingData → ℕ → List ℕ → AdvertisingData × Result (Unit {0}) Error
push d ad_type value =
    let end = d.len + (length value + 2) in
    if ltb 254 (length value) || ltb (length d.bytes) end
    then (d, err invalid_packet)
    else let with_length = set d.bytes d.len (u8 (length value + 1)) in
      let with_type = set with_length (d.len + 1) ad_type in
      (record { bytes = write_at with_type (d.len + 2) value; len = end }, ok tt)

unfoldable pub as_bytes : AdvertisingData → List ℕ
as_bytes d = take d.len d.bytes

-- What both builders write after the first octet.
unfoldable pub advertising_pdu : ℕ → DeviceAddress → AdvertisingData → List ℕ → List ℕ
unfolding as_bytes
advertising_pdu header address ad_data output =
    let payload_len = 6 + ad_data.len in
    let started = set (set output 0 header) 1 (u8 payload_len) in
    take (2 + payload_len) (write_at (write_at started 2 address.bytes) 8 (as_bytes ad_data))

unfoldable pub build_adv_ind : DeviceAddress → AdvertisingData → List ℕ → List ℕ
unfolding advertising_pdu
build_adv_ind address ad_data output =
    advertising_pdu (if is_random address.kind then 1 <<< 6 else 0x00) address ad_data output

unfoldable pub build_scan_rsp : DeviceAddress → AdvertisingData → List ℕ → List ℕ
unfolding advertising_pdu
build_scan_rsp address ad_data output =
    advertising_pdu (bit_or 0x04 (if is_random address.kind then 1 <<< 6 else 0)) address ad_data
      output

unfoldable pub is_scan_request : List ℕ → DeviceAddress → Bool
is_scan_request packet address =
    leb 14 (length packet)
    && (bit_and (at packet 0) 0x0f == 0x03
        && (bit_and (at packet 1) 0x3f == 12 && bytes_eq (take 6 (drop 8 packet)) address.bytes))
