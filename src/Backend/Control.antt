-- ===== src/Backend/Control.antt =====
-- The procedures that a connection starts and answers:
-- crates/ch58x-ble/src/link_layer.rs.
use ch58x_hal.Base.{ℕ, Bool, true, false, ◌&&◌, Option, none, some, List, [], ◌∷◌}
use ch58x_hal.Base.{◌==◌, if◌then◌else◌, is_some, Result, ok, err}
use ch58x_hal.Llcp.Procedure.{
  ProcedureKind, termination, feature_exchange, version_exchange, connection_parameters,
  connection_update, channel_map_update, ping, ProcedureInitiator, local_initiator,
  remote_initiator, ProcedureToken, ProcedureContext, active, collision_error, ProcedureManager,
  Outcome, new_context,
}
use ch58x_hal.Llcp.Start.{start_local, start_remote}
use ch58x_hal.Llcp.Transmit.{response_queued, tx_planned, tx_done, nesn_ack}
use ch58x_hal.Llcp.Timers.{fail}
use ch58x_hal.Backend.Connection.{
  ActiveConnection, PendingData, TransmittedPdu, no_pdu, procedure_response_timeout_us,
}
use ch58x_hal.Backend.Queue.{allocate_control_token, queue_control_with_token, queue_control}

abbrev pub with_procedures : ActiveConnection → ProcedureManager → ActiveConnection
with_procedures c m = record c { procedures = m }

-- `let _ = self.procedures.fail(initiator, error)`.
abbrev pub fail_procedure : ActiveConnection → ProcedureInitiator → ℕ → ActiveConnection
fail_procedure c initiator error = with_procedures c (fail c.procedures initiator error).0

-- The end of both functions that queue a PDU for a context: on a refusal the context fails.
abbrev pub or_fail : ProcedureInitiator → ActiveConnection × Bool → ActiveConnection × Bool
or_fail initiator (d, true) = (d, true)
or_fail initiator (d, false) = (fail_procedure d initiator 0x3a, false)

abbrev pub queue_response :
    ActiveConnection → ProcedureToken → List ℕ → Outcome ProcedureManager → ActiveConnection × Bool
queue_response c token response (m, ok done) =
    or_fail remote_initiator (queue_control_with_token (with_procedures c m) response token)
queue_response c token response (m, err e) = or_fail remote_initiator (with_procedures c m, false)

-- What follows `start_remote`: a refusal is told to the peer.
abbrev pub after_start_remote :
    ActiveConnection
    → ProcedureToken
    → ℕ
    → ℕ
    → List ℕ
    → Outcome ProcedureManager
    → ActiveConnection × Bool
after_start_remote c token request_opcode response_opcode response (m, ok done) =
    queue_response (with_procedures c m) token response (response_queued m token response_opcode)
after_start_remote c token request_opcode response_opcode response (m, err (collision_error e)) =
    queue_control (with_procedures c m) (0x11 ∷ request_opcode ∷ e ∷ [])
after_start_remote c token request_opcode response_opcode response (m, err _) =
    queue_control (with_procedures c m) (0x11 ∷ request_opcode ∷ 0x23 ∷ [])

unfoldable pub queue_remote_procedure_response_with_followup :
    ActiveConnection → ProcedureKind → ℕ → List ℕ → Option ℕ → Option ℕ → ActiveConnection × Bool
unfolding allocate_control_token new_context start_remote response_queued queue_control_with_token
    fail queue_control
queue_remote_procedure_response_with_followup c kind request_opcode [] expected timeout = (c, false)
queue_remote_procedure_response_with_followup c kind request_opcode (response_opcode ∷ rest)
      expected timeout =
    let (d, token) = allocate_control_token c in
    let context = new_context kind remote_initiator token response_opcode expected none timeout in
    after_start_remote d token request_opcode response_opcode (response_opcode ∷ rest)
      (start_remote d.procedures context)

unfoldable pub queue_remote_procedure_response :
    ActiveConnection → ProcedureKind → ℕ → List ℕ → ActiveConnection × Bool
unfolding queue_remote_procedure_response_with_followup
queue_remote_procedure_response c kind request_opcode response =
    queue_remote_procedure_response_with_followup c kind request_opcode response none none

-- The derived equality of the kinds.
abbrev kind_number : ProcedureKind → ℕ
kind_number termination = 0
kind_number feature_exchange = 1
kind_number version_exchange = 2
kind_number connection_parameters = 3
kind_number connection_update = 4
kind_number channel_map_update = 5
kind_number ping = 6

abbrev pub kind_is : ProcedureKind → ProcedureKind → Bool
kind_is a b = kind_number a == kind_number b

-- A slot holds an unfinished context of the kind.
abbrev pub holds_kind : ProcedureKind → Option ProcedureContext → Bool
holds_kind kind none = false
holds_kind kind (some context) = kind_is context.kind kind && active context

unfoldable pub remote_connection_parameters_active : ActiveConnection → Bool
remote_connection_parameters_active c = holds_kind connection_parameters c.procedures.remote

abbrev pub start_outcome :
    ActiveConnection → Outcome ProcedureManager → ActiveConnection × Result (Unit {0}) ℕ
start_outcome c (m, ok done) = (with_procedures c m, ok tt)
start_outcome c (m, err (collision_error e)) = (with_procedures c m, err e)
start_outcome c (m, err _) = (with_procedures c m, err 0x23)

unfoldable pub start_remote_instant_procedure :
    ActiveConnection → ProcedureKind → ℕ → ℕ → ActiveConnection × Result (Unit {0}) ℕ
unfolding allocate_control_token new_context start_remote
start_remote_instant_procedure c kind opcode instant =
    let (d, token) = allocate_control_token c in
    start_outcome d (
      start_remote d.procedures
        (new_context kind remote_initiator token opcode none (some instant) none))

abbrev pub after_start_local :
    ActiveConnection → ProcedureToken → List ℕ → Outcome ProcedureManager → ActiveConnection × Bool
after_start_local c token request (m, ok done) =
    or_fail local_initiator (queue_control_with_token (with_procedures c m) request token)
after_start_local c token request (m, err e) = (with_procedures c m, false)

unfoldable pub queue_local_procedure :
    ActiveConnection → ProcedureKind → List ℕ → Option ℕ → Option ℕ → ActiveConnection × Bool
unfolding allocate_control_token new_context start_local queue_control_with_token fail
queue_local_procedure c kind [] expected timeout = (c, false)
queue_local_procedure c kind (request_opcode ∷ rest) expected timeout =
    let (d, token) = allocate_control_token c in
    after_start_local d token (request_opcode ∷ rest) (
      start_local d.procedures
        (new_context kind local_initiator token request_opcode expected none timeout))

unfoldable pub queue_local_procedure_request :
    ActiveConnection → ProcedureKind → List ℕ → ℕ → ActiveConnection × Bool
unfolding queue_local_procedure
queue_local_procedure_request c kind request expected_response_opcode =
    queue_local_procedure c kind request (some expected_response_opcode)
      (some procedure_response_timeout_us)

unfoldable pub local_procedure_active : ActiveConnection → ProcedureKind → Bool
local_procedure_active c kind = holds_kind kind c.procedures.local

-- One pass of the loop over the two slots.
abbrev owner_of :
    ProcedureInitiator
    → Option ProcedureContext
    → ℕ
    → Option (ProcedureInitiator × ProcedureToken)
    → Option (ProcedureInitiator × ProcedureToken)
owner_of initiator none owner_token next = next
owner_of initiator (some context) owner_token next =
    if context.token.owner_token == owner_token then some (initiator, context.token) else next

unfoldable pub procedure_for_control_owner :
    ActiveConnection → ℕ → Option (ProcedureInitiator × ProcedureToken)
procedure_for_control_owner c owner_token =
    owner_of local_initiator c.procedures.local owner_token
      (owner_of remote_initiator c.procedures.remote owner_token none)

-- The context that owns the pending control PDU, if there are both.
abbrev pub pending_owner :
    ActiveConnection → Option PendingData → Option (ProcedureInitiator × ProcedureToken)
pending_owner c none = none
pending_owner c (some pending) = procedure_for_control_owner c pending.owner_token

abbrev pub Step : Type 0
Step = ActiveConnection × Result (Unit {0}) (Unit {0})

-- `map_err(|_| ())`.
abbrev pub forget_error : ActiveConnection → Outcome ProcedureManager → Step
forget_error c (m, ok done) = (with_procedures c m, ok tt)
forget_error c (m, err e) = (with_procedures c m, err tt)

abbrev pub on_owner :
    (ProcedureInitiator → ProcedureToken → Outcome ProcedureManager)
    → ActiveConnection
    → Option (ProcedureInitiator × ProcedureToken)
    → Step
on_owner f c none = (c, ok tt)
on_owner f c (some (initiator, token)) = forget_error c (f initiator token)

unfoldable pub plan_pending_control_procedure : ActiveConnection → Step
unfolding procedure_for_control_owner tx_planned
plan_pending_control_procedure c =
    on_owner (tx_planned c.procedures) c (pending_owner c c.pending_control)

unfoldable pub complete_pending_control_transmit : ActiveConnection → Step
unfolding procedure_for_control_owner tx_done
complete_pending_control_transmit c =
    on_owner (tx_done c.procedures) c (pending_owner c c.pending_control)

unfoldable pub acknowledge_pending_control : ActiveConnection → ℕ → Step
unfolding procedure_for_control_owner nesn_ack
acknowledge_pending_control c now_us =
    on_owner (λ initiator token. nesn_ack c.procedures initiator token now_us) c
      (pending_owner c c.pending_control)

abbrev pub is_no_pdu : TransmittedPdu → Bool
is_no_pdu no_pdu = true
is_no_pdu _ = false

-- An empty list is `tx_frame_len == 0`.
abbrev pub no_frame : List ℕ → Bool
no_frame [] = true
no_frame _ = false

unfoldable pub promote_priority_control_if_idle : ActiveConnection → ActiveConnection
promote_priority_control_if_idle c =
    if is_no_pdu c.transmitted && (no_frame c.tx_frame && is_some c.priority_control)
    then record c { pending_control = c.priority_control; priority_control = c.pending_control }
    else c
