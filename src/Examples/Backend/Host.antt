-- ===== src/Examples/Backend/Host.antt =====
-- Commands of the host, the start of a connection and its end on concrete values.
use ch58x_hal.Base.{ℕ, ◌+◌, ◌≡◌, refl, true, false, some, none}
use ch58x_hal.Base.{List, [], ◌∷◌, replicate}
use ch58x_hal.LinkLayer.AccessAddress.{
  adv_access_address, data_access_address_is_valid, runs_are_short, transition_count,
}
use ch58x_hal.LinkLayer.Timing.{connection_timing_is_valid}
use ch58x_hal.LinkLayer.ChannelSelection
use ch58x_hal.LinkLayer.ControlPdu.{data_channel_map_is_valid}
use ch58x_hal.Llcp.Procedure.{
  ProcedureContext, connection_parameters, local_initiator, awaiting_tx_ack,
}
use ch58x_hal.Llcp.Procedure
use ch58x_hal.Advertising.Address.{DeviceAddress, random_kind}
use ch58x_hal.Advertising.Legacy.{AdvertisingData, is_scan_request, as_bytes}
use ch58x_hal.Advertising.Legacy
use ch58x_hal.Advertising.Connection.{parse_connect_ind_detailed, connect_ind_pdu, timing_of}
use ch58x_hal.Backend.Transport.{Packet, cmd}
use ch58x_hal.Backend.Connection.{
  ActiveConnection, PendingData, control, llid_control, new, new_for,
}
use ch58x_hal.Backend.Received.{abandon_request}
use ch58x_hal.Backend.Event.{Exchange}
use ch58x_hal.Radio.{Channel}
use ch58x_hal.Backend.Commands.{
  Runner, Advertiser, default_advertiser, adv_crc_init, set_advertising_data,
}
use ch58x_hal.Backend.Commands.Structures.{Taken, set_advertising_data_copies}
use ch58x_hal.Backend.Run.{Link, Turn, timer, Next, run_connection}
use ch58x_hal.Backend.Run.Telling.{IsTold, run_connection_tells}
use ch58x_hal.Backend.Advertise.{
  Listener, connected, advertising_event, advertise_on, on_advertising_packet, begin_connection,
}
use ch58x_hal.Backend.Emit.{emit_connection_complete}
use ch58x_hal.Backend.Advertise.Connecting.{IsStarted, advertising_event_connects}
use ch58x_hal.Examples.Backend.Values.{request, connection, host, greeting, answers}

-- Three octets of advertising data, and padding.
abbrev flags : List ℕ
flags = 3 ∷ (2 ∷ 1 ∷ 6 ∷ replicate 28 0)

set_advertising_data_copies_example : Taken Legacy.new flags (set_advertising_data Legacy.new flags)
set_advertising_data_copies_example = set_advertising_data_copies Legacy.new flags

abbrev fill_bytes : ℕ → ℕ × List ℕ
fill_bytes n = (n + 1, replicate 8 n)

abbrev advertising : Advertiser
advertising = record default_advertiser { enabled = true }

abbrev runner : Runner ℕ
runner = record {
  access_address = adv_access_address;
  crc_init = adv_crc_init;
  random = 0;
  advertiser = advertising;
}

abbrev link : Link ℕ
link = record { runner = runner; connection = connection; host = host }

-- The host's packet, and then HCI_Disconnect.
abbrev disconnect : Packet
disconnect = record { kind = cmd; bytes = 0x06 ∷ 0x04 ∷ 3 ∷ 1 ∷ 0 ∷ 0x13 ∷ [] }

abbrev turn_of : List Packet → Turn
turn_of waiting = record {
  waiting = waiting;
  now = 50_200;
  clock = λ k. 50_200 + k;
  wake = timer;
  timer_now = 53_000;
  timer_clock = λ k. 53_000 + k;
  radio = answers 0x01 55_400;
  event_clock = λ k. 55_400 + k;
}

abbrev two_turns : List Turn
two_turns = turn_of (greeting ∷ []) ∷ turn_of (disconnect ∷ []) ∷ []

run_connection_tells_example :
    (p : Link ℕ × Next) × (run_connection fill_bytes two_turns link ≡ some p) × IsTold fill_bytes p
run_connection_tells_example = run_connection_tells fill_bytes two_turns link

abbrev request_pdu : PendingData
request_pdu = record { bytes = 0x0f ∷ []; llid = llid_control; owner_token = 0x80000001 }

abbrev request_context : ProcedureContext
request_context = record {
  kind = connection_parameters;
  initiator = local_initiator;
  phase = awaiting_tx_ack;
  token = record { owner_token = 0x80000001; generation = 1 };
  tx_opcode = 0x0f;
  expected_response_opcode = none;
  instant = none;
  response_timeout_us = 40_000_000;
  response_deadline_us = 0;
  pending_response = false;
  error = none;
}

abbrev requesting : ActiveConnection
requesting = record connection {
  procedures = record { local = some request_context; remote = none };
  pending_control = some request_pdu;
  transmitted = control;
}

abbrev given_up : ActiveConnection
given_up = (abandon_request requesting 0x2a host).0

abbrev event_clock : ℕ → ℕ
event_clock k = 90_000 + k

abbrev confirmation : Exchange
confirmation = record {
  transmitted = true;
  crc_ok = true;
  payload = 0x05 ∷ 0 ∷ [];
  rssi_dbm = 0xc4;
  timestamp_us = 90_000;
}

abbrev tuned_to : Channel
tuned_to = record { index = 7 }

abbrev initiator : DeviceAddress
initiator = record { bytes = request.initiator_address; kind = random_kind }

-- The initiator answers on the first channel.
abbrev listener : Listener
listener call = some (record {
  payload = connect_ind_pdu initiator advertising.address request (replicate 36 0);
  crc_ok = true;
  timestamp_us = 50_000;
})

-- The link that is started.
abbrev started_link : Link ℕ
started_link = begin_connection runner connection host

started_link_reached : advertising_event listener 50_100 runner host ≡ connected started_link
unfolding advertising_event advertise_on on_advertising_packet is_scan_request
    parse_connect_ind_detailed timing_of connection_timing_is_valid data_channel_map_is_valid
    data_access_address_is_valid runs_are_short transition_count new new_for ChannelSelection.new
    Procedure.new connect_ind_pdu default_advertiser begin_connection emit_connection_complete
started_link_reached = refl

advertising_event_connects_example : IsStarted started_link
advertising_event_connects_example =
    advertising_event_connects listener 50_100 runner host started_link started_link_reached
