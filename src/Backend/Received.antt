-- ===== src/Backend/Received.antt =====
-- The control PDUs of the peer: `handle_ll_control` of crates/ch58x-ble/src/link_layer.rs. The last part
-- of a result is the reason of a disconnection.
pub mod Abandoned
use ch58x_hal.Base.{ℕ, Bool, true, false, not, ◌&&◌, Option, none, some, List, [], ◌∷◌, length, at}
use ch58x_hal.Base.{bit_and, ◌==◌, ◌!=◌, if◌then◌else◌, is_some, Result, ok, err}
use ch58x_hal.LinkLayer.ControlPdu.{
  ControlPduError, malformed, invalid_parameters, instant_passed, ConnectionUpdateInd,
  ChannelMapInd, ConnectionParamPdu, InstantProcedure, connection_parameters_request,
  procedure_collision_error, parse_connection_update, parse_channel_map, parse_request, write,
  response_opcode,
}
use ch58x_hal.LinkLayer.ControlPdu
use ch58x_hal.Llcp.Procedure.{
  connection_update, channel_map_update, connection_parameters, feature_exchange, version_exchange,
  ping, ProcedureInitiator, local_initiator, remote_initiator, ProcedureManager, Outcome,
}
use ch58x_hal.Llcp.Transmit.{expected_response_with_instant}
use ch58x_hal.Backend.Transport.{Host}
use ch58x_hal.Backend.Connection.{
  ActiveConnection, LocalConnectionParamRequest, accepts, procedure_response_timeout_us,
}
use ch58x_hal.Backend.Queue.{queue_control}
use ch58x_hal.Backend.Control.{
  with_procedures, fail_procedure, queue_remote_procedure_response_with_followup,
  queue_remote_procedure_response, remote_connection_parameters_active,
  start_remote_instant_procedure,
}
use ch58x_hal.Backend.Emit.{emit_connection_update_result}

abbrev pub Handled : Type 0
Handled = ActiveConnection × Host × Option ℕ

abbrev pub going_on : ActiveConnection → Host → Handled
going_on c h = (c, h, none)

abbrev pub settled : ActiveConnection × Host → Handled
settled (c, h) = going_on c h

-- `map_err(|_| 0x3d)`.
abbrev pub answered :
    ActiveConnection → Outcome ProcedureManager → ActiveConnection × Result (Unit {0}) ℕ
answered c (m, ok done) = (with_procedures c m, ok tt)
answered c (m, err e) = (with_procedures c m, err 0x3d)

-- `owner_result`: which procedure the update belongs to.
unfoldable pub update_owner :
    ActiveConnection → ConnectionUpdateInd → ActiveConnection × Result (Unit {0}) ℕ
unfolding expected_response_with_instant remote_connection_parameters_active
    start_remote_instant_procedure
update_owner c update =
    if is_some c.local_connection_param_request
    then answered c
        (expected_response_with_instant c.procedures local_initiator 0x00 update.instant)
    else if remote_connection_parameters_active c
    then answered c
        (expected_response_with_instant c.procedures remote_initiator 0x00 update.instant)
    else start_remote_instant_procedure c connection_update 0x00 update.instant

abbrev pub refused_by : Option LocalConnectionParamRequest → ConnectionUpdateInd → Bool
refused_by none update = false
refused_by (some request) update = not (accepts request update)

abbrev pub take_update :
    ConnectionUpdateInd → Host → ActiveConnection × Result (Unit {0}) ℕ → Handled
take_update update h (c, ok done) =
    going_on (record c { pending_connection_update = some update }) h
take_update update h (c, err reason) = (c, h, some reason)

unfoldable pub on_connection_update :
    Result ConnectionUpdateInd ControlPduError → ActiveConnection → Host → Handled
unfolding update_owner accepts
on_connection_update (ok update) c h =
    if is_some c.pending_connection_update
    then (c, h, some 0x1e)
    else if refused_by c.local_connection_param_request update
    then (c, h, some 0x20)
    else take_update update h (update_owner c update)
on_connection_update (err malformed) c h = (c, h, some 0x1e)
on_connection_update (err invalid_parameters) c h = (c, h, some 0x1e)
on_connection_update (err instant_passed) c h = (c, h, some 0x28)

-- A local request is given up, its procedure fails, and the host is told.
unfoldable pub abandon_request : ActiveConnection → ℕ → Host → ActiveConnection × Host
unfolding emit_connection_update_result
abandon_request c error h =
    let d =
      fail_procedure (record c { local_connection_param_request = none }) local_initiator error in
    (d, emit_connection_update_result d error h)

abbrev pub yield_to : InstantProcedure → ActiveConnection × Host → ActiveConnection × Host
yield_to theirs (c, h) =
    if is_some c.local_connection_param_request
    then abandon_request c (procedure_collision_error connection_parameters_request theirs) h
    else (c, h)

abbrev pub take_map : ChannelMapInd → Host → ActiveConnection × Result (Unit {0}) ℕ → Handled
take_map update h (c, ok done) = going_on (record c { pending_channel_map = some update }) h
take_map update h (c, err reason) = (c, h, some reason)

unfoldable pub on_channel_map :
    Result ChannelMapInd ControlPduError → ActiveConnection → Host → Handled
unfolding start_remote_instant_procedure abandon_request procedure_collision_error
on_channel_map (ok update) c h =
    if is_some c.pending_channel_map
    then (c, h, some 0x1e)
    else let (d, k) = yield_to ControlPdu.channel_map_update (c, h) in
      take_map update k (start_remote_instant_procedure d channel_map_update 0x01 update.instant)
on_channel_map (err malformed) c h = (c, h, some 0x1e)
on_channel_map (err invalid_parameters) c h = (c, h, some 0x1e)
on_channel_map (err instant_passed) c h = (c, h, some 0x28)

-- LL_UNKNOWN_RSP, of two octets.
unfoldable pub on_unknown_response : List ℕ → ActiveConnection → Host → Handled
unfolding abandon_request
on_unknown_response payload c h =
    if at payload 1 == 0x0f && is_some c.local_connection_param_request
    then settled (abandon_request c 0x1a h)
    else going_on c h

abbrev pub reject_remote : ActiveConnection → ℕ → Host → Handled
reject_remote c error h = going_on c (emit_connection_update_result c error h)

-- LL_REJECT_EXT_IND, of three octets.
unfoldable pub on_reject : List ℕ → ActiveConnection → Host → Handled
unfolding abandon_request remote_connection_parameters_active emit_connection_update_result
on_reject payload c h =
    if at payload 1 == 0x0f && is_some c.local_connection_param_request
    then settled (abandon_request c (at payload 2) h)
    else if at payload 1 == 0x10 && remote_connection_parameters_active c
    then reject_remote (fail_procedure c remote_initiator (at payload 2)) (at payload 2) h
    else going_on c h

-- `let collision`.
unfoldable pub parameter_collision : ActiveConnection → Option ℕ
unfolding procedure_collision_error
parameter_collision c =
    if is_some c.pending_channel_map
    then some
        (procedure_collision_error ControlPdu.channel_map_update connection_parameters_request)
    else if is_some c.pending_connection_update
    then some (procedure_collision_error ControlPdu.connection_update connection_parameters_request)
    else none

abbrev pub answer_request : Option ℕ → ConnectionParamPdu → ActiveConnection → Host → Handled
answer_request (some error) request c h = going_on (queue_control c (0x11 ∷ 0x0f ∷ error ∷ [])).0 h
answer_request none request c h =
    let (d, k) = yield_to connection_parameters_request (c, h) in
    going_on
      (queue_remote_procedure_response_with_followup d connection_parameters 0x0f
        (write request response_opcode) (some 0x00) (some procedure_response_timeout_us)).0
      k

-- The last error is `unreachable!()`.
unfoldable pub on_parameter_request :
    Result ConnectionParamPdu ControlPduError → ActiveConnection → Host → Option Handled
unfolding parameter_collision queue_control queue_remote_procedure_response_with_followup write
    abandon_request procedure_collision_error
on_parameter_request (ok request) c h = some (answer_request (parameter_collision c) request c h)
on_parameter_request (err malformed) c h =
    some (going_on (queue_control c (0x11 ∷ 0x0f ∷ 0x1e ∷ [])).0 h)
on_parameter_request (err invalid_parameters) c h =
    some (going_on (queue_control c (0x11 ∷ 0x0f ∷ 0x1e ∷ [])).0 h)
on_parameter_request (err instant_passed) c h = none

-- The features that both sides have.
abbrev pub feature_response : List ℕ → List ℕ
feature_response payload = 0x09 ∷ bit_and (at payload 1) 0x06 ∷ 0 ∷ 0 ∷ 0 ∷ 0 ∷ 0 ∷ 0 ∷ 0 ∷ []

abbrev pub version_response : List ℕ
version_response = 0x0c ∷ 0x09 ∷ 0xff ∷ 0xff ∷ 0x00 ∷ 0x00 ∷ []

-- The arms of the `match` on the opcode with their guards, in order.
unfoldable pub dispatch : ℕ → List ℕ → ActiveConnection → Host → Option Handled
unfolding on_connection_update parse_connection_update on_channel_map parse_channel_map
    on_unknown_response on_reject queue_remote_procedure_response on_parameter_request parse_request
    queue_control
dispatch opcode payload c h =
    if opcode == 0x00
    then some (on_connection_update (parse_connection_update payload c.event_counter) c h)
    else if opcode == 0x01
    then some (on_channel_map (parse_channel_map payload c.event_counter) c h)
    else if opcode == 0x02 && length payload == 2
    then some (c, h, some (at payload 1))
    else if opcode == 0x02
    then some (c, h, some 0x1e)
    else if opcode == 0x07 && length payload == 2
    then some (on_unknown_response payload c h)
    else if opcode == 0x11 && length payload == 3
    then some (on_reject payload c h)
    else if opcode == 0x08 && length payload == 9
    then some (
        going_on
          (queue_remote_procedure_response c feature_exchange 0x08 (feature_response payload)).0 h)
    else if opcode == 0x0c && length payload == 6
    then some
        (going_on (queue_remote_procedure_response c version_exchange 0x0c version_response).0 h)
    else if opcode == 0x0f
    then on_parameter_request (parse_request payload c.event_counter) c h
    else if opcode == 0x10
    then some (going_on (queue_control c (0x11 ∷ 0x10 ∷ 0x1e ∷ [])).0 h)
    else if opcode == 0x12 && length payload == 1
    then some (going_on (queue_remote_procedure_response c ping 0x12 (0x13 ∷ [])).0 h)
    else some (going_on (queue_control c (0x07 ∷ opcode ∷ [])).0 h)

-- `none` is a panic.
unfoldable pub handle_ll_control : List ℕ → ActiveConnection → Host → Option Handled
unfolding dispatch
handle_ll_control [] c h = some (going_on c h)
handle_ll_control (opcode ∷ rest) c h = dispatch opcode (opcode ∷ rest) c h
