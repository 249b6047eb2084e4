-- ===== src/Examples/Packets.antt =====
-- Advertising packets, trace records, event decisions and access addresses on concrete values.
use ch58x_hal.Base.{ℕ, ◌+◌, ◌^◌, ◌≤◌, ◌<◌, ◌≡◌, ◌↔◌, refl, arith, Bool, true, false}
use ch58x_hal.Base.{some, List, [], ◌∷◌, replicate, All, bit_and, ok}
use ch58x_hal.Advertising.Address.{public_kind, random_kind, DeviceAddress}
use ch58x_hal.Advertising.Legacy.{
  new, as_bytes, parse_legacy_advertisement, build_adv_ind, build_scan_rsp,
}
use ch58x_hal.Advertising.Connection.{
  ConnectInd, build_connect_ind, connect_ind_pdu, may_be_built, parse_connect_ind,
  parse_connect_ind_detailed, timing_of,
}
use ch58x_hal.Advertising.Address.{random_static}
use ch58x_hal.Advertising.Addresses.{IsRandomStatic, random_static_iff}
use ch58x_hal.Advertising.Data.{new-IsData}
use ch58x_hal.Advertising.Advertisement.{parse_legacy_advertisement-build}
use ch58x_hal.Advertising.Connect.{parse_connect_ind-build}
use ch58x_hal.LinkLayer.Timing.{connection_timing_is_valid}
use ch58x_hal.LinkLayer.ControlPdu.{data_channel_map_is_valid}
use ch58x_hal.LinkLayer.AccessAddress.{
  data_access_address_is_valid, runs_are_short, transition_count,
}
use ch58x_hal.LinkLayer.AccessAddress.Runs.{IsRun, no_seven_equal_bits}
use ch58x_hal.LinkLayer.Event.{
  TraceRecord, continue, deadline, invalid_crc, invalid_mic, both_md_clear, DecisionInput,
  connection_event_decision, response_advertises_more_data,
}
use ch58x_hal.LinkLayer.Event
use ch58x_hal.LinkLayer.Event.Closing.{MayGoOn, connection_event_goes_on}
use ch58x_hal.LinkLayer.Event.Trace

abbrev initiator : DeviceAddress
initiator = record { bytes = 1 ∷ 2 ∷ 3 ∷ 4 ∷ 5 ∷ 0xc6 ∷ []; kind = random_kind }

abbrev advertiser : DeviceAddress
advertiser = record { bytes = 7 ∷ 8 ∷ 9 ∷ 10 ∷ 11 ∷ 12 ∷ []; kind = public_kind }

parse_legacy_advertisement-build_example :
    (parse_legacy_advertisement (build_adv_ind initiator new (replicate 39 0))
      ≡ ok (record { event_type = 0; address = initiator; ad_data = as_bytes new }))
    × (parse_legacy_advertisement (build_scan_rsp initiator new (replicate 39 0))
        ≡ ok (record { event_type = 4; address = initiator; ad_data = as_bytes new }))
parse_legacy_advertisement-build_example =
    parse_legacy_advertisement-build initiator new (replicate 39 0) refl new-IsData refl

abbrev connection : ConnectInd
connection = record {
  initiator_address = 1 ∷ 2 ∷ 3 ∷ 4 ∷ 5 ∷ 0xc6 ∷ [];
  initiator_address_random = true;
  access_address = 0x50655d4a;
  crc_init = 0x123456;
  window_size = 2;
  window_offset = 3;
  interval = 24;
  latency = 0;
  supervision_timeout = 300;
  channel_map = 0xff ∷ 0xff ∷ 0xff ∷ 0xff ∷ 0x1f ∷ [];
  hop_increment = 7;
  sleep_clock_accuracy = 5;
}

abbrev packet : List ℕ
packet = connect_ind_pdu initiator advertiser connection (replicate 36 0)

connection_built : build_connect_ind initiator advertiser connection (replicate 36 0) ≡ ok packet
unfolding build_connect_ind may_be_built timing_of connection_timing_is_valid
    data_channel_map_is_valid data_access_address_is_valid runs_are_short transition_count
connection_built = refl

parse_connect_ind-build_example :
    (parse_connect_ind_detailed packet advertiser ≡ ok connection)
    × (parse_connect_ind packet advertiser ≡ ok (some connection))
parse_connect_ind-build_example =
    parse_connect_ind-build initiator advertiser connection (replicate 36 0) packet refl refl refl
      (record {
        access_address = omega arith;
        crc_init = omega arith;
        window_offset = omega arith;
        interval = omega arith;
        latency = omega arith;
        supervision_timeout = omega arith;
        channel_map = refl;
      })
      connection_built

no_seven_equal_bits_example :
    ((runs_are_short 0x50655d4a 31 1 (bit_and 0x50655d4a 1) 1 ≡ true)
      ↔ ((i v : ℕ) → i + 7 ≤ 32 → IsRun 0x50655d4a i 7 v → ⊥))
    × ((coded_phy : Bool)
        → data_access_address_is_valid 0x50655d4a coded_phy ≡ true
        → (i v : ℕ) → i + 7 ≤ 32
        → IsRun 0x50655d4a i 7 v
        → ⊥)
no_seven_equal_bits_example = no_seven_equal_bits 0x50655d4a

abbrev input : DecisionInput
input = record {
  crc_ok = true;
  mic_ok = true;
  local_more_data = false;
  peer_more_data = true;
  before_deadline = true;
  resources_available = true;
}

connection_event_goes_on_example :
    ((connection_event_decision input ≡ continue) ↔ MayGoOn input)
    × (true ≡ false → connection_event_decision input ≡ invalid_crc)
    × (true ≡ true → true ≡ false → connection_event_decision input ≡ invalid_mic)
connection_event_goes_on_example = connection_event_goes_on input

abbrev trace : TraceRecord
trace = record {
  event_counter = 513;
  channel = 36;
  leg_index = 1;
  timestamp_us = 5_000_000_000;
  lle_status = 0x80;
  bb_status = 3;
  peer_header = 0x0e;
  response_header = 0x0a;
  received_len = 27;
  response_slot = 1;
  crc_ok = true;
  acknowledged_transmit = false;
  accepted_receive = true;
  peer_more_data = true;
  response_transmitted = true;
  close_reason = deadline;
}

decode-encode_example :
    (Trace.decode (Event.encode trace) ≡ trace) × All (λ (w : ℕ). w < 2 ^ 32) (Event.encode trace)
decode-encode_example = Trace.decode-encode trace (record {
  event_counter = omega arith;
  channel = omega arith;
  leg_index = omega arith;
  timestamp_us = omega arith;
  lle_status = omega arith;
  bb_status = omega arith;
  peer_header = omega arith;
  response_header = omega arith;
  received_len = omega arith;
  response_slot = omega arith;
})

random_static_iff_example :
    (random_static (1 ∷ 2 ∷ 3 ∷ 4 ∷ 5 ∷ 0xc6 ∷ [])
      ≡ ok (record { bytes = 1 ∷ 2 ∷ 3 ∷ 4 ∷ 5 ∷ 0xc6 ∷ []; kind = random_kind }))
    ↔ IsRandomStatic (1 ∷ 2 ∷ 3 ∷ 4 ∷ 5 ∷ 0xc6 ∷ [])
random_static_iff_example =
    random_static_iff (1 ∷ 2 ∷ 3 ∷ 4 ∷ 5 ∷ 0xc6 ∷ []) refl
      (omega arith, (omega arith, (omega arith, (omega arith, (omega arith, (omega arith, tt))))))
