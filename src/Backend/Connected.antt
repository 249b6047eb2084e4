-- ===== src/Backend/Connected.antt =====
-- The commands of the host while a connection is up: `handle_connected_command` of
-- crates/ch58x-ble/src/link_layer/hci.rs.
use ch58x_hal.Base.{
  ℕ, Bool, true, false, not, ◌&&◌, ◌||◌, List, [], ◌∷◌, ◌++◌, length, at, drop, replicate,
}
use ch58x_hal.Base.{◌==◌, ◌!=◌, if◌then◌else◌, is_some, u16_from_le, u16_to_le, some, none}
use ch58x_hal.LinkLayer.Timing.{connection_parameter_range_is_valid}
use ch58x_hal.LinkLayer.ControlPdu.{ConnectionParamPdu, write, request_opcode}
use ch58x_hal.Llcp.Procedure.{termination, connection_parameters}
use ch58x_hal.Backend.Transport.{Host, command_complete, command_status}
use ch58x_hal.Backend.Connection.{
  ActiveConnection, LocalConnectionParamRequest, hci_success, hci_command_disallowed,
  hci_invalid_parameters, hci_controller_busy,
}
use ch58x_hal.Backend.Control.{
  local_procedure_active, remote_connection_parameters_active, queue_local_procedure,
  queue_local_procedure_request,
}
use ch58x_hal.Backend.Commands.{Runner, is_malformed, opcode_of, handle_command}

abbrev pub Told : Type 0
Told = ActiveConnection × Host

abbrev status_of : Bool → ℕ
status_of true = hci_success
status_of false = hci_controller_busy

abbrev terminating : ActiveConnection × Bool → Host → Told
terminating (c, queued) h = (c, command_status 0x0406 (status_of queued) h)

-- HCI_Disconnect, of three octets.
unfoldable pub disconnect : List ℕ → ActiveConnection → Host → Told
unfolding command_status local_procedure_active queue_local_procedure
disconnect params c h =
    if u16_from_le (at params 0) (at params 1) != c.handle || local_procedure_active c termination
    then (c, command_status 0x0406 hci_command_disallowed h)
    else terminating (queue_local_procedure c termination (0x02 ∷ at params 2 ∷ []) none none) h

-- HCI_Read_RSSI, of two octets.
unfoldable pub read_rssi : List ℕ → ActiveConnection → Host → Told
unfolding command_complete
read_rssi params c h =
    if u16_from_le (at params 0) (at params 1) != c.handle
    then (c, command_complete 0x1405 0x02 params h)
    else (c, command_complete 0x1405 hci_success (u16_to_le c.handle ++ (c.last_rssi ∷ [])) h)

abbrev pub asked : List ℕ → LocalConnectionParamRequest
asked params = record {
  interval_min = u16_from_le (at params 2) (at params 3);
  interval_max = u16_from_le (at params 4) (at params 5);
  latency = u16_from_le (at params 6) (at params 7);
  supervision_timeout = u16_from_le (at params 8) (at params 9);
}

-- Another update of the parameters or of the channel map is under way.
abbrev pub update_under_way : ActiveConnection → Bool
update_under_way c =
    is_some c.local_connection_param_request
    || (remote_connection_parameters_active c
        || (is_some c.pending_connection_update || is_some c.pending_channel_map))

abbrev pub request_pdu : LocalConnectionParamRequest → ℕ → ConnectionParamPdu
request_pdu r event_counter = record {
  interval_min = r.interval_min;
  interval_max = r.interval_max;
  latency = r.latency;
  supervision_timeout = r.supervision_timeout;
  preferred_periodicity = 0;
  reference_event_count = event_counter;
  offsets = replicate 6 0xffff;
}

abbrev requested : LocalConnectionParamRequest → ActiveConnection × Bool → Host → Told
requested r (c, true) h =
    (record c { local_connection_param_request = some r }, command_status 0x2013 hci_success h)
requested r (c, false) h = (c, command_status 0x2013 hci_controller_busy h)

-- HCI_LE_Connection_Update, of fourteen octets.
unfoldable pub update_connection : List ℕ → ActiveConnection → Host → Told
unfolding command_status remote_connection_parameters_active queue_local_procedure_request write
    connection_parameter_range_is_valid
update_connection params c h =
    let r = asked params in
    if u16_from_le (at params 0) (at params 1) != c.handle
      || not (
          connection_parameter_range_is_valid r.interval_min r.interval_max r.latency
            r.supervision_timeout)
    then (c, command_status 0x2013 hci_invalid_parameters h)
    else if update_under_way c
    then (c, command_status 0x2013 hci_controller_busy h)
    else requested r
        (queue_local_procedure_request c connection_parameters
          (write (request_pdu r c.event_counter) request_opcode) 0x00)
        h

module _ {Random : Type 0} (fill_bytes : Random → Random × List ℕ) where
  abbrev pub Outcome : Type 0
  Outcome = Runner Random × ActiveConnection × Host × Bool

  abbrev stay : Runner Random → Told → Outcome
  stay r (c, h) = (r, c, h, false)

  abbrev fallen_through : ActiveConnection → Bool → Runner Random × Host → Outcome
  fallen_through c stop (r, h) = (r, c, h, stop)

  -- The last part says that the connection stops at once. `is_connected()` holds meanwhile.
  unfoldable pub handle_connected_command :
      List ℕ → Runner Random → ActiveConnection → Host → Outcome
  unfolding handle_command disconnect read_rssi update_connection
  handle_connected_command bytes r c h =
      if is_malformed bytes
      then (r, c, h, false)
      else let opcode = opcode_of bytes in
        let params = drop 3 bytes in
        if opcode == 0x0c03 && length params == 0
        then fallen_through c true (handle_command fill_bytes true bytes r h)
        else if opcode == 0x0406 && length params == 3
        then stay r (disconnect params c h)
        else if opcode == 0x1405 && length params == 2
        then stay r (read_rssi params c h)
        else if opcode == 0x2013 && length params == 14
        then stay r (update_connection params c h)
        else fallen_through c false (handle_command fill_bytes true bytes r h)
