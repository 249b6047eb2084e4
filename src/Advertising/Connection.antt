-- ===== src/Advertising/Connection.antt =====
-- The connection request of crates/ble-controller/src/advertising.rs.
use ch58x_hal.Base.{ℕ, Bool, true, false, not, ◌&&◌, ◌||◌}
use ch58x_hal.Base.{Option, none, some, List, length, at, take, drop, set, replicate, bytes_eq}
use ch58x_hal.Base.{ltb, leb, ◌!=◌, if◌then◌else◌, bit_and, bit_or, has_bits, ◌<<<◌, ◌>>>◌, u8}
use ch58x_hal.Base.{u16_from_le, u32_from_le, u16_to_le, u32_to_le, Result, ok, err}
use ch58x_hal.LinkLayer.Timing.{connection_timing_is_valid}
use ch58x_hal.LinkLayer.ControlPdu.{data_channel_map_is_valid}
use ch58x_hal.LinkLayer.AccessAddress.{data_access_address_is_valid}
use ch58x_hal.Radio.{Error, invalid_packet}
use ch58x_hal.Advertising.Address.{connect_ind_payload_len, is_random, DeviceAddress}
use ch58x_hal.Advertising.Legacy.{write_at}

pub record ConnectInd : Type 0 where
  pub initiator_address : List ℕ
  pub initiator_address_random : Bool
  pub access_address : ℕ
  pub crc_init : ℕ
  pub window_size : ℕ
  pub window_offset : ℕ
  pub interval : ℕ
  pub latency : ℕ
  pub supervision_timeout : ℕ
  pub channel_map : List ℕ
  pub hop_increment : ℕ
  pub sleep_clock_accuracy : ℕ

abbrev pub bool_eq : Bool → Bool → Bool
bool_eq true b = b
bool_eq false b = not b

unfoldable pub timing_of : ConnectInd → Bool
timing_of c =
    connection_timing_is_valid c.window_size c.window_offset c.interval c.latency
      c.supervision_timeout

unfoldable pub may_be_built : DeviceAddress → ConnectInd → Bool
may_be_built initiator c = not (
    not (bytes_eq c.initiator_address initiator.bytes)
    || (not (bool_eq c.initiator_address_random (is_random initiator.kind))
        || (not (data_access_address_is_valid c.access_address false)
            || (not (leb 5 c.hop_increment && leb c.hop_increment 16)
                || (ltb 7 c.sleep_clock_accuracy
                    || (not (timing_of c) || not (data_channel_map_is_valid c.channel_map)))))))

-- The stores into the output, which is filled with zeros before.
unfoldable pub connect_ind_pdu : DeviceAddress → DeviceAddress → ConnectInd → List ℕ → List ℕ
connect_ind_pdu initiator advertiser c o0 =
    let header =
      bit_or (bit_or 0x05 (if is_random initiator.kind then 1 <<< 6 else 0))
        (if is_random advertiser.kind then 1 <<< 7 else 0) in
    let o2 = write_at (set (set o0 0 header) 1 connect_ind_payload_len) 2 initiator.bytes in
    let o8 = write_at (write_at o2 8 advertiser.bytes) 14 (u32_to_le c.access_address) in
    let o18 = set (set o8 18 (u8 c.crc_init)) 19 (u8 (c.crc_init >>> 8)) in
    let o20 = set (set o18 20 (u8 (c.crc_init >>> 16))) 21 c.window_size in
    let o22 = write_at (write_at o20 22 (u16_to_le c.window_offset)) 24 (u16_to_le c.interval) in
    let o26 =
      write_at (write_at o22 26 (u16_to_le c.latency)) 28 (u16_to_le c.supervision_timeout) in
    set (write_at o26 30 c.channel_map) 35
      (bit_or c.hop_increment (u8 (c.sleep_clock_accuracy <<< 5)))

unfoldable pub build_connect_ind :
    DeviceAddress → DeviceAddress → ConnectInd → List ℕ → Result (List ℕ) Error
build_connect_ind initiator advertiser c output =
    if may_be_built initiator c
    then ok (connect_ind_pdu initiator advertiser c (replicate (length output) 0))
    else err invalid_packet

pub data ConnectIndParseError : Type 0 where
  not_connect_ind invalid_length different_advertiser invalid_access_address : ConnectIndParseError
  invalid_hop_increment invalid_timing invalid_channel_map : ConnectIndParseError

-- `payload` is `packet[2..36]`.
abbrev pub connect_ind_fields : ℕ → List ℕ → ConnectInd
connect_ind_fields header payload = record {
  initiator_address = take 6 payload;
  initiator_address_random = has_bits header (1 <<< 6);
  access_address = u32_from_le (at payload 12) (at payload 13) (at payload 14) (at payload 15);
  crc_init = bit_or (bit_or (at payload 16) (at payload 17 <<< 8)) (at payload 18 <<< 16);
  window_size = at payload 19;
  window_offset = u16_from_le (at payload 20) (at payload 21);
  interval = u16_from_le (at payload 22) (at payload 23);
  latency = u16_from_le (at payload 24) (at payload 25);
  supervision_timeout = u16_from_le (at payload 26) (at payload 27);
  channel_map = take 5 (drop 28 payload);
  hop_increment = bit_and (at payload 33) 0x1f;
  sleep_clock_accuracy = at payload 33 >>> 5;
}

-- The tests of the fields, in their order.
abbrev pub checked_fields : ConnectInd → Result ConnectInd ConnectIndParseError
checked_fields c =
    if not (data_access_address_is_valid c.access_address false)
    then err invalid_access_address
    else if not (leb 5 c.hop_increment && leb c.hop_increment 16)
    then err invalid_hop_increment
    else if not (timing_of c)
    then err invalid_timing
    else if not (data_channel_map_is_valid c.channel_map)
    then err invalid_channel_map
    else ok c

unfoldable pub parse_connect_ind_detailed :
    List ℕ → DeviceAddress → Result ConnectInd ConnectIndParseError
parse_connect_ind_detailed packet address =
    if ltb (length packet) 36 || bit_and (at packet 0) 0x0f != 0x05
    then err not_connect_ind
    else if bit_and (at packet 1) 0x3f != connect_ind_payload_len
    then err invalid_length
    else let payload = take 34 (drop 2 packet) in
      if not (bytes_eq (take 6 (drop 6 payload)) address.bytes)
      then err different_advertiser
      else checked_fields (connect_ind_fields (at packet 0) payload)

abbrev pub without_detail :
    Result ConnectInd ConnectIndParseError → Result (Option ConnectInd) Error
without_detail (ok c) = ok (some c)
without_detail (err not_connect_ind) = ok none
without_detail (err different_advertiser) = ok none
without_detail (err _) = err invalid_packet

unfoldable pub parse_connect_ind : List ℕ → DeviceAddress → Result (Option ConnectInd) Error
parse_connect_ind packet address = without_detail (parse_connect_ind_detailed packet address)
