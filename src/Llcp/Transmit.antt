-- ===== src/Llcp/Transmit.antt =====
-- Transmission, acknowledgment and responses: lines 198 to 352 of crates/ble-controller/src/llcp.rs. What
-- a method does to the context it borrows is a function of its own.
use ch58x_hal.Base.{ℕ, ◌+◌, Bool, true, false, not, ◌&&◌, Option, none, some}
use ch58x_hal.Base.{◌==◌, if◌then◌else◌, saturate, is_some, ok, err}
use ch58x_hal.Llcp.Procedure.{
  ProcedureInitiator, local_initiator, remote_initiator, ProcedurePhase, queued, awaiting_tx_ack,
  awaiting_response, response_queued_phase, awaiting_instant, complete, ProcedureToken,
  ProcedureContext, missing_context, stale_token, invalid_phase, wrong_opcode, ProcedureManager,
  Outcome,
}

-- `context_mut`, and the rest of the method on what it borrows.
abbrev pub on_slot :
    Option ProcedureContext
    → (ProcedureContext → Outcome ProcedureContext)
    → Outcome (Option ProcedureContext)
on_slot none f = (none, err missing_context)
on_slot (some c) f = (some (f c).0, (f c).1)

abbrev pub on_context :
    ProcedureManager
    → ProcedureInitiator
    → (ProcedureContext → Outcome ProcedureContext)
    → Outcome ProcedureManager
on_context m local_initiator f = (record m { local = (on_slot m.local f).0 }, (on_slot m.local f).1)
on_context m remote_initiator f =
    (record m { remote = (on_slot m.remote f).0 }, (on_slot m.remote f).1)

abbrev pub token_is : ProcedureToken → ProcedureToken → Bool
token_is a b = a.owner_token == b.owner_token && a.generation == b.generation

abbrev is_transmittable : ProcedurePhase → Bool
is_transmittable queued = true
is_transmittable response_queued_phase = true
is_transmittable _ = false

unfoldable pub plan_context : ProcedureToken → ProcedureContext → Outcome ProcedureContext
plan_context token c =
    if not (token_is c.token token)
    then (c, err stale_token)
    else if not (is_transmittable c.phase)
    then (c, err invalid_phase)
    else (c, ok tt)

unfoldable pub tx_planned :
    ProcedureManager → ProcedureInitiator → ProcedureToken → Outcome ProcedureManager
tx_planned m initiator token = on_context m initiator (plan_context token)

unfoldable pub done_context : ProcedureToken → ProcedureContext → Outcome ProcedureContext
done_context token c =
    if not (token_is c.token token)
    then (c, err stale_token)
    else if not (is_transmittable c.phase)
    then (c, err invalid_phase)
    else (record c { phase = awaiting_tx_ack }, ok tt)

unfoldable pub tx_done :
    ProcedureManager → ProcedureInitiator → ProcedureToken → Outcome ProcedureManager
tx_done m initiator token = on_context m initiator (done_context token)

abbrev is_awaiting_tx_ack : ProcedurePhase → Bool
is_awaiting_tx_ack awaiting_tx_ack = true
is_awaiting_tx_ack _ = false

abbrev deadline : ProcedureContext → ℕ → ℕ
deadline c now_us =
    if c.response_timeout_us == 0 then 0 else saturate (now_us + c.response_timeout_us)

-- The three branches of an acknowledgment.
abbrev acknowledged : ProcedureContext → ℕ → ProcedureContext
acknowledged c now_us =
    if c.pending_response
    then (if is_some c.instant
        then record c { phase = awaiting_instant; pending_response = false }
        else if is_some c.expected_response_opcode
        then record c {
          response_deadline_us = deadline c now_us;
          phase = awaiting_response;
          pending_response = false;
        }
        else record c { phase = complete; pending_response = false })
    else if is_some c.expected_response_opcode
    then record c { phase = awaiting_response; response_deadline_us = deadline c now_us }
    else if is_some c.instant
    then record c { phase = awaiting_instant }
    else record c { phase = complete }

unfoldable pub ack_context : ProcedureToken → ℕ → ProcedureContext → Outcome ProcedureContext
ack_context token now_us c =
    if not (token_is c.token token)
    then (c, err stale_token)
    else if not (is_awaiting_tx_ack c.phase)
    then (c, err invalid_phase)
    else (acknowledged c now_us, ok tt)

unfoldable pub nesn_ack :
    ProcedureManager → ProcedureInitiator → ProcedureToken → ℕ → Outcome ProcedureManager
nesn_ack m initiator token now_us = on_context m initiator (ack_context token now_us)

abbrev is_awaiting_response : ProcedurePhase → Bool
is_awaiting_response awaiting_response = true
is_awaiting_response _ = false

abbrev expects : Option ℕ → ℕ → Bool
expects none opcode = false
expects (some expected) opcode = expected == opcode

unfoldable pub response_context : ℕ → ProcedureContext → Outcome ProcedureContext
response_context opcode c =
    if not (is_awaiting_response c.phase)
    then (c, err invalid_phase)
    else if not (expects c.expected_response_opcode opcode)
    then (c, err wrong_opcode)
    else (
      record c {
        response_deadline_us = 0;
        phase = if is_some c.instant then awaiting_instant else complete;
      },
      ok tt,
    )

unfoldable pub expected_response :
    ProcedureManager → ProcedureInitiator → ℕ → Outcome ProcedureManager
expected_response m initiator opcode = on_context m initiator (response_context opcode)

unfoldable pub response_instant_context : ℕ → ℕ → ProcedureContext → Outcome ProcedureContext
response_instant_context opcode instant c =
    if not (is_awaiting_response c.phase)
    then (c, err invalid_phase)
    else if not (expects c.expected_response_opcode opcode)
    then (c, err wrong_opcode)
    else (record c { instant = some instant; phase = awaiting_instant }, ok tt)

unfoldable pub expected_response_with_instant :
    ProcedureManager → ProcedureInitiator → ℕ → ℕ → Outcome ProcedureManager
expected_response_with_instant m initiator opcode instant =
    on_context m initiator (response_instant_context opcode instant)

abbrev can_respond : ProcedurePhase → Bool
can_respond queued = true
can_respond awaiting_response = true
can_respond _ = false

unfoldable pub respond_context : ProcedureToken → ℕ → ProcedureContext → Outcome ProcedureContext
respond_context token tx_opcode c = if not (can_respond c.phase) then (c, err invalid_phase) else (
  record c {
    token = token;
    tx_opcode = tx_opcode;
    pending_response = true;
    phase = response_queued_phase;
  },
  ok tt,
)

unfoldable pub response_queued : ProcedureManager → ProcedureToken → ℕ → Outcome ProcedureManager
response_queued m token tx_opcode = on_context m remote_initiator (respond_context token tx_opcode)
