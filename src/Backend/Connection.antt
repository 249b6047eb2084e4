-- ===== src/Backend/Connection.antt =====
-- The state of a connection: crates/ch58x-ble/src/link_layer.rs. Instants and
-- durations are numbers of microseconds, the tick of the clock. An array with its length is the list
-- of what is in use.
use ch58x_hal.Base.{ℕ, ◌+◌, ◌*◌, ◌-◌, Bool, false, Option, none, List, []}
use ch58x_hal.Base.{Result, ok, err, replicate}
use ch58x_hal.LinkLayer.ControlPdu.{
  ConnectionUpdateInd, ChannelMapInd, connection_update_matches_request,
}
use ch58x_hal.LinkLayer.ChannelSelection.{ChannelSelection1}
use ch58x_hal.LinkLayer.ChannelSelection
use ch58x_hal.Llcp.Procedure.{ProcedureManager}
use ch58x_hal.Llcp.Procedure
use ch58x_hal.Radio.{Error}
use ch58x_hal.Advertising.Connection.{ConnectInd}

abbrev pub hci_success : ℕ
hci_success = 0x00

abbrev pub hci_unknown_command : ℕ
hci_unknown_command = 0x01

abbrev pub hci_command_disallowed : ℕ
hci_command_disallowed = 0x0c

abbrev pub hci_invalid_parameters : ℕ
hci_invalid_parameters = 0x12

abbrev pub hci_controller_busy : ℕ
hci_controller_busy = 0x3a

abbrev pub connection_handle : ℕ
connection_handle = 1

abbrev pub max_data_pdu_payload : ℕ
max_data_pdu_payload = 27

abbrev pub acl_queue_capacity : ℕ
acl_queue_capacity = 4

abbrev pub llid_continuation : ℕ
llid_continuation = 0x01

abbrev pub llid_start : ℕ
llid_start = 0x02

abbrev pub llid_control : ℕ
llid_control = 0x03

abbrev pub local_sleep_clock_ppm : ℕ
local_sleep_clock_ppm = 50

abbrev pub rx_setup_lead_us : ℕ
rx_setup_lead_us = 1_000

abbrev pub max_data_packet_airtime_us : ℕ
max_data_packet_airtime_us = (1 + 4 + 2 + max_data_pdu_payload + 3) * 8

abbrev pub procedure_response_timeout_us : ℕ
procedure_response_timeout_us = 40_000_000

pub record PendingData : Type 0 where
  pub bytes : List ℕ
  pub llid : ℕ
  pub owner_token : ℕ

-- `TransmittedPdu`; `no_pdu` is its `None`.
pub data TransmittedPdu : Type 0 where
  no_pdu control acl empty : TransmittedPdu

pub record LocalConnectionParamRequest : Type 0 where
  pub interval_min : ℕ
  pub interval_max : ℕ
  pub latency : ℕ
  pub supervision_timeout : ℕ

unfoldable pub accepts : LocalConnectionParamRequest → ConnectionUpdateInd → Bool
unfolding connection_update_matches_request
accepts r update =
    connection_update_matches_request r.interval_min r.interval_max r.latency r.supervision_timeout
      update

pub record ActiveConnection : Type 0 where
  pub handle : ℕ
  pub request : ConnectInd
  pub channels : ChannelSelection1
  pub next_anchor : ℕ
  pub last_sync_anchor : ℕ
  pub receive_window_size_us : ℕ
  pub event_counter : ℕ
  pub supervision_deadline : ℕ
  pub transmit_sn : ℕ
  pub expected_sn : ℕ
  pub next_acl_owner_token : ℕ
  pub next_control_owner_token : ℕ
  pub pending : Option PendingData
  pub queued_acl : List (Option PendingData)
  pub pending_control : Option PendingData
  pub priority_control : Option PendingData
  pub queued_control : Option PendingData
  pub transmitted : TransmittedPdu
  pub tx_frame : List ℕ
  pub tx_frame_fresh : Bool
  pub pending_connection_update : Option ConnectionUpdateInd
  pub pending_channel_map : Option ChannelMapInd
  pub local_connection_param_request : Option LocalConnectionParamRequest
  pub procedures : ProcedureManager
  pub last_rssi : ℕ

abbrev pub started : ℕ → ConnectInd → ℕ → ℕ → ChannelSelection1 → ActiveConnection
started handle request connect_ind_end_us now channels = record {
  handle = handle;
  request = request;
  channels = channels;
  next_anchor = connect_ind_end_us + (request.window_offset + 1) * 1_250;
  last_sync_anchor = connect_ind_end_us;
  receive_window_size_us = request.window_size * 1_250;
  event_counter = 0;
  supervision_deadline = now + request.supervision_timeout * 10_000;
  transmit_sn = 0;
  expected_sn = 0;
  next_acl_owner_token = 1;
  next_control_owner_token = 0x80000001;
  pending = none;
  queued_acl = replicate acl_queue_capacity none;
  pending_control = none;
  priority_control = none;
  queued_control = none;
  transmitted = no_pdu;
  tx_frame = [];
  tx_frame_fresh = false;
  pending_connection_update = none;
  pending_channel_map = none;
  local_connection_param_request = none;
  procedures = Procedure.new;
  last_rssi = 256 - 127;
}

abbrev pub with_channels :
    ℕ → ConnectInd → ℕ → ℕ → Result ChannelSelection1 Error → Result ActiveConnection Error
with_channels handle request connect_ind_end_us now (ok channels) =
    ok (started handle request connect_ind_end_us now channels)
with_channels handle request connect_ind_end_us now (err e) = err e

-- `last_rssi` is the octet of the signed number. `now` is the clock's reading.
unfoldable pub new_for : ℕ → ConnectInd → ℕ → ℕ → Result ActiveConnection Error
unfolding Procedure.new ChannelSelection.new
new_for handle request connect_ind_end_us now =
    with_channels handle request connect_ind_end_us now
      (ChannelSelection.new request.channel_map request.hop_increment)

unfoldable pub new : ConnectInd → ℕ → ℕ → Result ActiveConnection Error
unfolding new_for
new request connect_ind_end_us now = new_for connection_handle request connect_ind_end_us now
