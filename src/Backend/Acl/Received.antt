-- ===== src/Backend/Acl/Received.antt =====
-- `handle_ll_control` as a whole leaves the ACL packets, the frame, the sequence numbers and the
-- credits alone.
use ch58x_hal.Base.{ℕ, refl}
use ch58x_hal.Base.{◌&&◌, Option, none, some, List, [], ◌∷◌, Result, ok, err}
use ch58x_hal.Base.{◌==◌, if_both, is_some, at, length}
use ch58x_hal.LinkLayer.ControlPdu.{
  ControlPduError, malformed, invalid_parameters, instant_passed, ConnectionParamPdu,
  connection_parameters_request, parse_connection_update, parse_channel_map, parse_request, write,
  response_opcode,
}
use ch58x_hal.Llcp.Procedure.{
  ProcedureKind, connection_parameters, feature_exchange, version_exchange, ping, remote_initiator,
}
use ch58x_hal.Backend.Transport.{Host}
use ch58x_hal.Backend.Connection.{ActiveConnection, procedure_response_timeout_us}
use ch58x_hal.Backend.Queue.{queue_control}
use ch58x_hal.Backend.Control.{
  queue_remote_procedure_response, remote_connection_parameters_active, fail_procedure,
}
use ch58x_hal.Backend.Received.{
  going_on, yield_to, on_unknown_response, on_reject, answer_request, parameter_collision,
  on_parameter_request, dispatch, feature_response, version_response, handle_ll_control,
}
use ch58x_hal.Backend.Acl.Untouched.{
  Untouched-refl, Untouched-trans, queue_control-Untouched, response-Untouched, fail-Untouched,
}
use ch58x_hal.Backend.Acl.Calm.{
  Calm, AllCalm, emit-credits, stopped-Calm, on_connection_update-Calm, abandon_request-Calm,
  yield_to-Calm, on_channel_map-Calm,
}

quiet-Calm : (c : ActiveConnection) (h : Host) → Calm c h (going_on c h)
quiet-Calm c h = (Untouched-refl c, refl)

on_unknown_response-Calm :
    (payload : List ℕ) (c : ActiveConnection) (h : Host)
    → Calm c h (on_unknown_response payload c h)
unfolding on_unknown_response
on_unknown_response-Calm payload c h =
    if_both (Calm c h) (at payload 1 == 0x0f && is_some c.local_connection_param_request)
      (abandon_request-Calm c 0x1a h) (quiet-Calm c h)

on_reject-Calm :
    (payload : List ℕ) (c : ActiveConnection) (h : Host) → Calm c h (on_reject payload c h)
unfolding on_reject
on_reject-Calm payload c h =
    if_both (Calm c h) (at payload 1 == 0x0f && is_some c.local_connection_param_request)
      (abandon_request-Calm c (at payload 2) h)
      (if_both (Calm c h) (at payload 1 == 0x10 && remote_connection_parameters_active c)
        (
          fail-Untouched c remote_initiator (at payload 2),
          emit-credits (fail_procedure c remote_initiator (at payload 2)) (at payload 2) h,
        )
        (quiet-Calm c h))

queued-Calm :
    (bytes : List ℕ) (c : ActiveConnection) (h : Host)
    → Calm c h (going_on (queue_control c bytes).0 h)
queued-Calm bytes c h = (queue_control-Untouched c bytes, refl)

response-Calm :
    (kind : ProcedureKind) (request : ℕ) (response : List ℕ) (c : ActiveConnection) (h : Host)
    → Calm c h (going_on (queue_remote_procedure_response c kind request response).0 h)
unfolding queue_remote_procedure_response
response-Calm kind request response c h =
    (response-Untouched c kind request response none none, refl)

answer_request-Calm :
    (collision : Option ℕ) (request : ConnectionParamPdu) (c : ActiveConnection) (h : Host)
    → Calm c h (answer_request collision request c h)
answer_request-Calm (some error) request c h = queued-Calm (0x11 ∷ 0x0f ∷ error ∷ []) c h
answer_request-Calm none request c h =
    let y = yield_to-Calm connection_parameters_request c h in
    (
      Untouched-trans y.0 (
          response-Untouched (yield_to connection_parameters_request (c, h)).0 connection_parameters
            0x0f (write request response_opcode) (some 0x00) (some procedure_response_timeout_us)),
      y.1,
    )

on_parameter_request-Calm :
    (r : Result ConnectionParamPdu ControlPduError) (c : ActiveConnection) (h : Host)
    → AllCalm c h (on_parameter_request r c h)
unfolding on_parameter_request
on_parameter_request-Calm (ok request) c h = answer_request-Calm (parameter_collision c) request c h
on_parameter_request-Calm (err malformed) c h = queued-Calm (0x11 ∷ 0x0f ∷ 0x1e ∷ []) c h
on_parameter_request-Calm (err invalid_parameters) c h = queued-Calm (0x11 ∷ 0x0f ∷ 0x1e ∷ []) c h
on_parameter_request-Calm (err instant_passed) c h = tt

dispatch-Calm :
    (opcode : ℕ) (payload : List ℕ) (c : ActiveConnection) (h : Host)
    → AllCalm c h (dispatch opcode payload c h)
unfolding dispatch
dispatch-Calm opcode payload c h =
    if_both (AllCalm c h) (opcode == 0x00)
      (on_connection_update-Calm (parse_connection_update payload c.event_counter) c h)
      (if_both (AllCalm c h) (opcode == 0x01)
        (on_channel_map-Calm (parse_channel_map payload c.event_counter) c h)
        (if_both (AllCalm c h) (opcode == 0x02 && length payload == 2)
          (stopped-Calm c h (at payload 1))
          (if_both (AllCalm c h) (opcode == 0x02) (stopped-Calm c h 0x1e) (
            if_both (AllCalm c h) (opcode == 0x07 && length payload == 2)
              (on_unknown_response-Calm payload c h)
              (if_both (AllCalm c h) (opcode == 0x11 && length payload == 3)
                (on_reject-Calm payload c h)
                (if_both (AllCalm c h) (opcode == 0x08 && length payload == 9)
                  (response-Calm feature_exchange 0x08 (feature_response payload) c h)
                  (if_both (AllCalm c h) (opcode == 0x0c && length payload == 6)
                    (response-Calm version_exchange 0x0c version_response c h)
                    (if_both (AllCalm c h) (opcode == 0x0f)
                      (on_parameter_request-Calm (parse_request payload c.event_counter) c h)
                      (if_both (AllCalm c h) (opcode == 0x10)
                        (queued-Calm (0x11 ∷ 0x10 ∷ 0x1e ∷ []) c h)
                        (if_both (AllCalm c h) (opcode == 0x12 && length payload == 1)
                          (response-Calm ping 0x12 (0x13 ∷ []) c h)
                          (queued-Calm (0x07 ∷ opcode ∷ []) c h)))))))))))

pub handle_ll_control-Calm :
    (payload : List ℕ) (c : ActiveConnection) (h : Host)
    → AllCalm c h (handle_ll_control payload c h)
unfolding handle_ll_control
handle_ll_control-Calm [] c h = quiet-Calm c h
handle_ll_control-Calm (opcode ∷ rest) c h = dispatch-Calm opcode (opcode ∷ rest) c h
