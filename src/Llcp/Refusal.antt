-- ===== src/Llcp/Refusal.antt =====
-- What a method of `ProcedureManager` that reports an error leaves behind.
use ch58x_hal.Base.{ℕ, ◌≡◌, refl, ap}
use ch58x_hal.Base.{arith, Option, none, some}
use ch58x_hal.Base.{err}
use ch58x_hal.Llcp.Procedure.{
  ProcedureInitiator, local_initiator, remote_initiator, ProcedureToken, ProcedureContext,
  ProcedureError, ProcedureManager, Outcome,
}
use ch58x_hal.Llcp.Transmit.{
  plan_context, done_context, ack_context, response_context, response_instant_context,
  respond_context, on_slot, on_context, tx_planned, tx_done, nesn_ack, expected_response,
  expected_response_with_instant, response_queued,
}
use ch58x_hal.Llcp.Timers.{fail_context, fail}
use ch58x_hal.Llcp.Calls.{
  Call, call_start_local, call_start_remote, call_tx_planned, call_tx_done, call_nesn_ack,
  call_expected_response, call_expected_response_with_instant, call_response_queued, call_fail,
  call_check_timeouts, call_on_connection_event, perform, context_of, start_local_cases,
  start_remote_cases,
}

-- An error of the method leaves the context it borrowed alone.
abbrev IsCareful : (ProcedureContext → Outcome ProcedureContext) → Type 0
IsCareful f = (c : ProcedureContext) (e : ProcedureError) → (f c).1 ≡ err e → (f c).0 ≡ c

plan-IsCareful : (token : ProcedureToken) → IsCareful (plan_context token)
unfolding plan_context
plan-IsCareful token c e h = ground arith

done-IsCareful : (token : ProcedureToken) → IsCareful (done_context token)
unfolding done_context
done-IsCareful token c e h = ground arith

ack-IsCareful : (token : ProcedureToken) (now : ℕ) → IsCareful (ack_context token now)
unfolding ack_context
ack-IsCareful token now c e h = ground arith

response-IsCareful : (opcode : ℕ) → IsCareful (response_context opcode)
unfolding response_context
response-IsCareful opcode c e h = ground arith

response_instant-IsCareful :
    (opcode instant : ℕ) → IsCareful (response_instant_context opcode instant)
unfolding response_instant_context
response_instant-IsCareful opcode instant c e h = ground arith

respond-IsCareful : (token : ProcedureToken) (opcode : ℕ) → IsCareful (respond_context token opcode)
unfolding respond_context
respond-IsCareful token opcode c e h = ground arith

fail-IsCareful : (error : ℕ) → IsCareful (fail_context error)
unfolding fail_context
fail-IsCareful error c e h = absurd (ground arith)

on_slot_careful :
    (o : Option ProcedureContext) (f : ProcedureContext → Outcome ProcedureContext)
    (e : ProcedureError)
    → IsCareful f
    → (on_slot o f).1 ≡ err e
    → (on_slot o f).0 ≡ o
on_slot_careful none f e careful h = refl
on_slot_careful (some c) f e careful h = ap some (careful c e h)

on_context_careful :
    (m : ProcedureManager) (i : ProcedureInitiator)
    (f : ProcedureContext → Outcome ProcedureContext) (e : ProcedureError)
    → IsCareful f
    → (on_context m i f).1 ≡ err e
    → (on_context m i f).0 ≡ m
on_context_careful m local_initiator f e careful h =
    ap (λ (o : Option ProcedureContext). record m { local = o })
      (on_slot_careful m.local f e careful h)
on_context_careful m remote_initiator f e careful h =
    ap (λ (o : Option ProcedureContext). record m { remote = o })
      (on_slot_careful m.remote f e careful h)

-- A call that returns an error, a stale token, a wrong phase or opcode, a missing context, a busy
-- slot or a collision, leaves both contexts as they were.
pub error_keeps_manager :
    (m : ProcedureManager) (c : Call) (e : ProcedureError)
    → (perform m c).1 ≡ err e
    → (perform m c).0 ≡ m
unfolding perform tx_planned tx_done nesn_ack expected_response expected_response_with_instant
    response_queued fail
error_keeps_manager m (call_start_local i r) e h =
    ground (arith, start_local_cases m (context_of i r))
error_keeps_manager m (call_start_remote i r) e h =
    ground (arith, start_remote_cases m (context_of i r))
error_keeps_manager m (call_tx_planned i token) e h =
    on_context_careful m i (plan_context token) e (plan-IsCareful token) h
error_keeps_manager m (call_tx_done i token) e h =
    on_context_careful m i (done_context token) e (done-IsCareful token) h
error_keeps_manager m (call_nesn_ack i token now) e h =
    on_context_careful m i (ack_context token now) e (ack-IsCareful token now) h
error_keeps_manager m (call_expected_response i opcode) e h =
    on_context_careful m i (response_context opcode) e (response-IsCareful opcode) h
error_keeps_manager m (call_expected_response_with_instant i opcode instant) e h =
    on_context_careful m i (response_instant_context opcode instant) e
      (response_instant-IsCareful opcode instant) h
error_keeps_manager m (call_response_queued token opcode) e h =
    on_context_careful m remote_initiator (respond_context token opcode) e
      (respond-IsCareful token opcode) h
error_keeps_manager m (call_fail i error) e h =
    on_context_careful m i (fail_context error) e (fail-IsCareful error) h
error_keeps_manager m (call_check_timeouts now error) e h = absurd (ground arith)
error_keeps_manager m (call_on_connection_event counter error) e h = absurd (ground arith)
