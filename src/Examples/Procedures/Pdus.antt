-- ===== src/Examples/Procedures/Pdus.antt =====
-- Control PDUs and HCI input on concrete values.
use ch58x_hal.Base.{ℕ, ◌*◌, ◌≤◌, ◌≡◌, ◌↔◌, ◌⊎◌, refl, arith}
use ch58x_hal.Base.{
  Bool, true, false, some, List, [], ◌∷◌, length, any, All, IsByte, ltb, ◌&&◌, if◌then◌else◌, ok,
  err,
}
use ch58x_hal.LinkLayer.Timing.{classify_instant, connection_timing_is_valid}
use ch58x_hal.LinkLayer.ControlPdu.{
  ConnectionUpdateInd, ConnectionParamPdu, invalid_parameters, is_passed, parse_connection_update,
  update_is_valid, parameters_are_valid, parse_param, write, data_channel_map_is_valid,
}
use ch58x_hal.LinkLayer.ControlPdu.Parameters.{Fits, parse_param-write}
use ch58x_hal.LinkLayer.ControlPdu.Update.{IsTiming, encode, parse_connection_update_accepts}
use ch58x_hal.LinkLayer.ChannelSelection.{used_table}
use ch58x_hal.Llcp.Procedure.{
  ProcedureContext, ProcedureManager, ProcedureToken, termination, channel_map_update,
  local_initiator, remote_initiator, awaiting_instant, awaiting_response, complete, missing_context,
  new_context,
}
use ch58x_hal.Llcp.Procedure
use ch58x_hal.Base.{at, u16_to_le, u16_from_le, ◌++◌}
use ch58x_hal.LinkLayer.ControlPdu.{ChannelMapInd, parse_channel_map}
use ch58x_hal.LinkLayer.ChannelSelection.{update_map}
use ch58x_hal.LinkLayer.ChannelSelection.MapUpdate.{parse_channel_map_accepts}
use ch58x_hal.Llcp.Start.{start_remote, placed}
use ch58x_hal.Llcp.Starting.{MayStart, start_remote_iff}
use ch58x_hal.Hci.{AdvertisingParameters, event_enabled, parse}
use ch58x_hal.Hci.Events.{IsCredit, IsAllowed, event_enabled_iff}
use ch58x_hal.Hci.Parameters.{IsSupported, parse_accepts}
use ch58x_hal.Examples.Procedures.Control.{waiting}
use ch58x_hal.Examples.Procedures.Selection.{map, selector}

abbrev update : ConnectionUpdateInd
update = record {
  window_size = 2;
  window_offset = 3;
  interval = 24;
  latency = 1;
  supervision_timeout = 300;
  instant = 70;
}

abbrev update_payload : List ℕ
update_payload = 0 ∷ 2 ∷ 3 ∷ 0 ∷ 24 ∷ 0 ∷ 1 ∷ 0 ∷ 44 ∷ 1 ∷ 70 ∷ 0 ∷ []

update_parsed : parse_connection_update update_payload 60 ≡ ok update
unfolding parse_connection_update update_is_valid connection_timing_is_valid classify_instant
update_parsed = refl

parse_connection_update_accepts_example :
    (encode update ≡ update_payload)
    × IsTiming 2 3 24 1 300
    × (is_passed (classify_instant 60 70) ≡ false)
parse_connection_update_accepts_example =
    parse_connection_update_accepts update_payload 60 update
      (
        omega arith,
        (
          omega arith,
          (
            omega arith,
            (
              omega arith,
              (
                omega arith,
                (
                  omega arith,
                  (
                    omega arith,
                    (omega arith, (omega arith, (omega arith, (omega arith, (omega arith, tt))))),
                  ),
                ),
              ),
            ),
          ),
        ),
      )
      update_parsed

abbrev parameters : ConnectionParamPdu
parameters = record {
  interval_min = 24;
  interval_max = 40;
  latency = 0;
  supervision_timeout = 400;
  preferred_periodicity = 0;
  reference_event_count = 12;
  offsets = 0 ∷ 5 ∷ 0xffff ∷ 0xffff ∷ 0xffff ∷ 0xffff ∷ [];
}

parameters-Fits : Fits parameters
parameters-Fits = record {
  interval_min = omega arith;
  interval_max = omega arith;
  latency = omega arith;
  supervision_timeout = omega arith;
  preferred_periodicity = omega arith;
  reference_event_count = omega arith;
  offsets =
      (omega arith, (omega arith, (omega arith, (omega arith, (omega arith, (omega arith, tt))))));
  six = refl;
}

parse_param-write_example :
    parse_param (write parameters 0x0f) 0x0f 10
    ≡ (if parameters_are_valid parameters 10 then ok parameters else err invalid_parameters)
parse_param-write_example = parse_param-write parameters 0x0f 10 parameters-Fits

event_enabled_iff_example :
    (event_enabled 0x2000000000000000 1 0x3e (1 ∷ []) ≡ true)
    ↔ (IsCredit 0x3e ⊎ IsAllowed 0x2000000000000000 1 0x3e (1 ∷ []))
event_enabled_iff_example = event_enabled_iff 0x2000000000000000 1 0x3e (1 ∷ [])

abbrev command : List ℕ
command = 0x20 ∷ 0 ∷ 0x40 ∷ 0 ∷ 0 ∷ 1 ∷ 0 ∷ 0 ∷ 0 ∷ 0 ∷ 0 ∷ 0 ∷ 0 ∷ 7 ∷ 0 ∷ []

parse_accepts_example :
    (((p : AdvertisingParameters) × (parse command ≡ some p)) ↔ IsSupported command)
    × ((p : AdvertisingParameters)
        → parse command ≡ some p
        → (p.interval_us ≡ u16_from_le (at command 0) (at command 1) * 625)
          × (20_000 ≤ p.interval_us)
          × (p.interval_us ≤ 10_240_000)
          × (length p.channels ≡ 3)
          × (any (λ c. c) p.channels ≡ true))
parse_accepts_example = parse_accepts command (omega arith)

abbrev parameters_payload : List ℕ
parameters_payload =
    0x0f ∷ 24 ∷ 0 ∷ 40 ∷ 0 ∷ 0 ∷ 0 ∷ 144 ∷ 1 ∷ 0 ∷ 12 ∷ 0 ∷ 0 ∷ 0 ∷ 5 ∷ 0 ∷ 0xff ∷ 0xff ∷ 0xff
    ∷ 0xff ∷ 0xff ∷ 0xff ∷ 0xff ∷ 0xff ∷ []

abbrev are_octets : List ℕ → Bool
are_octets [] = true
are_octets (x ∷ xs) = ltb x 256 && are_octets xs

pub octets : (xs : List ℕ) → are_octets xs ≡ true → All IsByte xs
octets [] h = tt
octets (x ∷ xs) h = (ground arith, octets xs (ground arith))

abbrev map_update : ChannelMapInd
map_update = record { map = map; instant = 70 }

abbrev map_payload : List ℕ
map_payload = 1 ∷ 0x05 ∷ 0x00 ∷ 0x80 ∷ 0x00 ∷ 0x10 ∷ 70 ∷ 0 ∷ []

map_parsed : parse_channel_map map_payload 60 ≡ ok map_update
unfolding parse_channel_map data_channel_map_is_valid classify_instant
map_parsed = refl

parse_channel_map_accepts_example :
    (0x01 ∷ (map ++ u16_to_le 70) ≡ map_payload)
    × (is_passed (classify_instant 60 70) ≡ false)
    × (update_map selector map ≡ (
      record selector { map = map; used = (used_table map).0; used_len = (used_table map).1 },
      ok tt,
    ))
    × (2 ≤ (used_table map).1)
parse_channel_map_accepts_example =
    parse_channel_map_accepts map_payload 60 map_update selector (octets map_payload refl)
      map_parsed

start_remote_iff_example :
    (((start_remote Procedure.new waiting).1 ≡ ok tt) ↔ MayStart Procedure.new waiting)
    × (MayStart Procedure.new waiting
        → start_remote Procedure.new waiting
          ≡ (record Procedure.new { remote = some (placed waiting) }, ok tt))
start_remote_iff_example = start_remote_iff Procedure.new waiting
