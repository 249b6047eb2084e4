-- ===== src/Llcp/Invariant.antt =====
-- What every context of a `ProcedureManager` satisfies, whatever is called in whatever order.
use ch58x_hal.Base.{ℕ, ◌≡◌, refl}
use ch58x_hal.Base.{arith, Bool, true, not, ◌&&◌, ◌||◌, is_some}
use ch58x_hal.Base.{◌==◌}
use ch58x_hal.Llcp.Procedure.{
  ProcedurePhase, queued, awaiting_tx_ack, awaiting_response, response_queued_phase,
  awaiting_instant, complete, failed, ProcedureToken, ProcedureContext,
}
use ch58x_hal.Llcp.Transmit.{
  plan_context, done_context, ack_context, response_context, response_instant_context,
  respond_context,
}
use ch58x_hal.Llcp.Timers.{fail_context, event_context, timed_out}

-- By phase: whether a response is expected, an instant is known, which deadline is armed, and
-- whether a response of ours is on its way.
abbrev sound : ProcedurePhase → Bool → Bool → ℕ → Bool → Bool
sound queued expects has_instant deadline pending = deadline == 0 && not pending
sound awaiting_tx_ack expects has_instant deadline pending = deadline == 0 || expects
sound awaiting_response expects has_instant deadline pending = expects && not pending
sound response_queued_phase expects has_instant deadline pending =
    pending && (deadline == 0 || expects)
sound awaiting_instant expects has_instant deadline pending =
    has_instant && (not pending && (deadline == 0 || expects))
sound complete expects has_instant deadline pending = deadline == 0 && not pending
sound failed expects has_instant deadline pending = deadline == 0 && not pending

abbrev pub IsContext : ProcedureContext → Type 0
IsContext c =
    sound c.phase (is_some c.expected_response_opcode) (is_some c.instant) c.response_deadline_us
      c.pending_response
    ≡ true

module _ (c : ProcedureContext) (h : IsContext c) where
  pub plan_context-IsContext : (token : ProcedureToken) → IsContext (plan_context token c).0
  unfolding plan_context
  plan_context-IsContext token = ground arith

  pub done_context-IsContext : (token : ProcedureToken) → IsContext (done_context token c).0
  unfolding done_context
  done_context-IsContext token = ground arith

  pub ack_context-IsContext :
      (token : ProcedureToken) (now_us : ℕ) → IsContext (ack_context token now_us c).0
  unfolding ack_context
  ack_context-IsContext token now_us = ground arith

  pub response_context-IsContext : (opcode : ℕ) → IsContext (response_context opcode c).0
  unfolding response_context
  response_context-IsContext opcode = ground arith

  pub response_instant_context-IsContext :
      (opcode instant : ℕ) → IsContext (response_instant_context opcode instant c).0
  unfolding response_instant_context
  response_instant_context-IsContext opcode instant = ground arith

  pub respond_context-IsContext :
      (token : ProcedureToken) (opcode : ℕ) → IsContext (respond_context token opcode c).0
  unfolding respond_context
  respond_context-IsContext token opcode = ground arith

  pub fail_context-IsContext : (error : ℕ) → IsContext (fail_context error c).0
  unfolding fail_context
  fail_context-IsContext error = refl

  pub event_context-IsContext : (n e : ℕ) → IsContext (event_context n e c)
  unfolding event_context
  event_context-IsContext n e = ground arith

  pub timed_out-IsContext : (n e : ℕ) → IsContext (timed_out n e c)
  unfolding timed_out
  timed_out-IsContext n e = ground arith
