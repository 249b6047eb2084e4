-- ===== src/LinkLayer/ControlPdu.antt =====
-- The control PDUs of crates/ble-controller/src/link_layer.rs, lines 765 to 1040. Payloads are lists
-- of octets; each index stands behind the test of the length.
pub mod Parameters
pub mod Update
use ch58x_hal.Base.{ℕ, zero, suc, ◌+◌, ◌/◌, Bool, true, false, not, ◌&&◌, ◌||◌, Option, none, some}
use ch58x_hal.Base.{List, [], ◌∷◌, ◌++◌, length, at, take, drop, any, ltb, leb, ◌==◌, ◌!=◌}
use ch58x_hal.Base.{if◌then◌else◌, u16_from_le, u16_to_le, bit_and, Result, ok, err}
use ch58x_hal.LinkLayer.Timing.{
  InstantRelation, current, future, passed, classify_instant, connection_timing_is_valid,
  connection_parameter_range_is_valid,
}

pub data ControlPduError : Type 0 where
  malformed invalid_parameters instant_passed : ControlPduError

pub data InstantProcedure : Type 0 where
  connection_update channel_map_update connection_parameters_request : InstantProcedure

-- `local as u8`.
discriminant : InstantProcedure → ℕ
discriminant connection_update = 0
discriminant channel_map_update = 1
discriminant connection_parameters_request = 2

is_update_and_request : InstantProcedure → InstantProcedure → Bool
is_update_and_request connection_update connection_parameters_request = true
is_update_and_request connection_parameters_request connection_update = true
is_update_and_request a b = false

unfoldable pub procedure_collision_error : InstantProcedure → InstantProcedure → ℕ
unfolding discriminant is_update_and_request
procedure_collision_error ours theirs =
    if is_update_and_request ours theirs || discriminant ours == discriminant theirs
    then 0x23
    else 0x2a

abbrev pub is_passed : InstantRelation → Bool
is_passed passed = true
is_passed _ = false

pub record ConnectionUpdateInd : Type 0 where
  pub window_size : ℕ
  pub window_offset : ℕ
  pub interval : ℕ
  pub latency : ℕ
  pub supervision_timeout : ℕ
  pub instant : ℕ

unfoldable pub update_is_valid : ConnectionUpdateInd → Bool
update_is_valid u =
    connection_timing_is_valid u.window_size u.window_offset u.interval u.latency
      u.supervision_timeout

abbrev pub update_fields : List ℕ → ConnectionUpdateInd
update_fields payload = record {
  window_size = at payload 1;
  window_offset = u16_from_le (at payload 2) (at payload 3);
  interval = u16_from_le (at payload 4) (at payload 5);
  latency = u16_from_le (at payload 6) (at payload 7);
  supervision_timeout = u16_from_le (at payload 8) (at payload 9);
  instant = u16_from_le (at payload 10) (at payload 11);
}

unfoldable pub parse_connection_update : List ℕ → ℕ → Result ConnectionUpdateInd ControlPduError
parse_connection_update payload event_counter =
    if length payload != 12 || at payload 0 != 0x00
    then err malformed
    else let update = update_fields payload in
      if not (update_is_valid update)
      then err invalid_parameters
      else if is_passed (classify_instant event_counter update.instant)
      then err instant_passed
      else ok update

unfoldable pub connection_update_matches_request : ℕ → ℕ → ℕ → ℕ → ConnectionUpdateInd → Bool
connection_update_matches_request interval_min interval_max latency supervision_timeout update =
    leb interval_min update.interval
    && (leb update.interval interval_max
        && (update.latency == latency && update.supervision_timeout == supervision_timeout))

pub record ConnectionParamPdu : Type 0 where
  pub interval_min : ℕ
  pub interval_max : ℕ
  pub latency : ℕ
  pub supervision_timeout : ℕ
  pub preferred_periodicity : ℕ
  pub reference_event_count : ℕ
  pub offsets : List ℕ

-- The loop over `offsets`: `none` is `return false`, otherwise the value of `have_valid_offset`.
-- `before` are `offsets[..index]`.
unfoldable pub scan_offsets : ℕ → List ℕ → Bool → Bool → List ℕ → Option Bool
scan_offsets interval_max before saw_invalid have_valid [] = some have_valid
scan_offsets interval_max before saw_invalid have_valid (offset ∷ rest) =
    let padding = scan_offsets interval_max (before ++ (offset ∷ [])) true have_valid rest in
    let next = scan_offsets interval_max (before ++ (offset ∷ [])) saw_invalid true rest in
    if offset == 0xffff
    then padding
    else if saw_invalid || leb interval_max offset
    then none
    else if any (λ previous. previous == offset) before
    then none
    else next

abbrev reference_is_valid : Option Bool → ℕ → ℕ → Bool
reference_is_valid none event_counter reference = false
reference_is_valid (some have_valid) event_counter reference =
    not have_valid || not (is_passed (classify_instant event_counter reference))

unfoldable pub parameters_are_valid : ConnectionParamPdu → ℕ → Bool
parameters_are_valid p event_counter =
    if not (
        connection_parameter_range_is_valid p.interval_min p.interval_max p.latency
          p.supervision_timeout)
      || ltb p.interval_max p.preferred_periodicity
    then false
    else reference_is_valid (scan_offsets p.interval_max [] false false p.offsets) event_counter
        p.reference_event_count

-- `payload[12..24].chunks_exact(2)` as 16-bit numbers.
abbrev pub chunks : List ℕ → List ℕ
chunks [] = []
chunks (a ∷ []) = []
chunks (a ∷ b ∷ rest) = u16_from_le a b ∷ chunks rest

abbrev pub param_fields : List ℕ → ConnectionParamPdu
param_fields payload = record {
  interval_min = u16_from_le (at payload 1) (at payload 2);
  interval_max = u16_from_le (at payload 3) (at payload 4);
  latency = u16_from_le (at payload 5) (at payload 6);
  supervision_timeout = u16_from_le (at payload 7) (at payload 8);
  preferred_periodicity = at payload 9;
  reference_event_count = u16_from_le (at payload 10) (at payload 11);
  offsets = chunks (take 12 (drop 12 payload));
}

unfoldable pub parse_param : List ℕ → ℕ → ℕ → Result ConnectionParamPdu ControlPduError
parse_param payload expected_opcode event_counter =
    if length payload != 24 || at payload 0 != expected_opcode
    then err malformed
    else let parameters = param_fields payload in
      if parameters_are_valid parameters event_counter
      then ok parameters
      else err invalid_parameters

abbrev pub request_opcode : ℕ
request_opcode = 0x0f

abbrev pub response_opcode : ℕ
response_opcode = 0x10

unfoldable pub parse_request : List ℕ → ℕ → Result ConnectionParamPdu ControlPduError
unfolding parse_param
parse_request payload event_counter = parse_param payload request_opcode event_counter

unfoldable pub parse_response : List ℕ → ℕ → Result ConnectionParamPdu ControlPduError
unfolding parse_param
parse_response payload event_counter = parse_param payload response_opcode event_counter

abbrev pub write_offsets : List ℕ → List ℕ
write_offsets [] = []
write_offsets (offset ∷ rest) = u16_to_le offset ++ write_offsets rest

-- The 24 octets that `write` leaves in its output.
unfoldable pub write : ConnectionParamPdu → ℕ → List ℕ
write p opcode =
    opcode
    ∷ (u16_to_le p.interval_min
        ++ (u16_to_le p.interval_max
            ++ (u16_to_le p.latency
                ++ (u16_to_le p.supervision_timeout
                    ++ (p.preferred_periodicity
                        ∷ (u16_to_le p.reference_event_count ++ write_offsets p.offsets))))))

pub record ChannelMapInd : Type 0 where
  pub map : List ℕ
  pub instant : ℕ

-- `u8::count_ones` and `u32::count_ones`, over the bits of the type.
abbrev pub count_ones : ℕ → ℕ → ℕ
count_ones zero n = 0
count_ones (suc width) n = bit_and n 1 + count_ones width (n / 2)

abbrev pub used_channels : List ℕ → ℕ
used_channels [] = 0
used_channels (octet ∷ rest) = count_ones 8 octet + used_channels rest

unfoldable pub data_channel_map_is_valid : List ℕ → Bool
data_channel_map_is_valid map =
    if bit_and (at map 4) 0xe0 != 0 then false else leb 2 (used_channels map)

unfoldable pub parse_channel_map : List ℕ → ℕ → Result ChannelMapInd ControlPduError
parse_channel_map payload event_counter =
    if length payload != 8 || at payload 0 != 0x01
    then err malformed
    else let update : ChannelMapInd = record {
      map = take 5 (drop 1 payload);
      instant = u16_from_le (at payload 6) (at payload 7);
    } in
      if not (data_channel_map_is_valid update.map)
      then err invalid_parameters
      else if is_passed (classify_instant event_counter update.instant)
      then err instant_passed
      else ok update
