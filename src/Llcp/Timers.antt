-- ===== src/Llcp/Timers.antt =====
-- Timeouts, failures and instants: lines 354 to 402 of crates/ble-controller/src/llcp.rs.
use ch58x_hal.Base.{ℕ, Bool, true, false, not, ◌&&◌, ◌||◌, Option, none, some}
use ch58x_hal.Base.{leb, ◌!=◌, if◌then◌else◌, ok}
use ch58x_hal.LinkLayer.Timing.{InstantRelation, current, future, passed, classify_instant}
use ch58x_hal.Llcp.Procedure.{
  ProcedureInitiator, ProcedurePhase, awaiting_response, awaiting_instant, complete, failed,
  ProcedureContext, ProcedureManager, Outcome,
}
use ch58x_hal.Llcp.Transmit.{on_context}

abbrev is_timed : ProcedurePhase → Bool
is_timed awaiting_response = true
is_timed awaiting_instant = true
is_timed _ = false

abbrev pub is_expired : ℕ → ProcedureContext → Bool
is_expired now_us c =
    is_timed c.phase && (c.response_deadline_us != 0 && leb c.response_deadline_us now_us)

unfoldable pub timed_out : ℕ → ℕ → ProcedureContext → ProcedureContext
timed_out now_us error c =
    if is_expired now_us c
    then record c { phase = failed; error = some error; response_deadline_us = 0 }
    else c

-- `into_iter().flatten()` over the two slots.
abbrev pub on_some :
    (ProcedureContext → ProcedureContext) → Option ProcedureContext → Option ProcedureContext
on_some f none = none
on_some f (some c) = some (f c)

abbrev pub slot_is_expired : ℕ → Option ProcedureContext → Bool
slot_is_expired now_us none = false
slot_is_expired now_us (some c) = is_expired now_us c

unfoldable pub check_timeouts : ProcedureManager → ℕ → ℕ → ProcedureManager × Bool
check_timeouts m now_us error = (
  record {
    local = on_some (timed_out now_us error) m.local;
    remote = on_some (timed_out now_us error) m.remote;
  },
  slot_is_expired now_us m.local || slot_is_expired now_us m.remote,
)

unfoldable pub fail_context : ℕ → ProcedureContext → Outcome ProcedureContext
fail_context error c = (
  record c {
    phase = failed;
    error = some error;
    response_deadline_us = 0;
    pending_response = false;
  },
  ok tt,
)

unfoldable pub fail : ProcedureManager → ProcedureInitiator → ℕ → Outcome ProcedureManager
fail m initiator error = on_context m initiator (fail_context error)

abbrev is_awaiting_instant : ProcedurePhase → Bool
is_awaiting_instant awaiting_instant = true
is_awaiting_instant _ = false

abbrev at_instant : InstantRelation → ℕ → ProcedureContext → ProcedureContext
at_instant current passed_error c = record c { phase = complete; response_deadline_us = 0 }
at_instant (future n) passed_error c = c
at_instant passed passed_error c = record c {
  phase = failed;
  error = some passed_error;
  response_deadline_us = 0;
}

abbrev event_with : Option ℕ → ℕ → ℕ → ProcedureContext → ProcedureContext
event_with none event_counter passed_error c = c
event_with (some instant) event_counter passed_error c =
    at_instant (classify_instant event_counter instant) passed_error c

unfoldable pub event_context : ℕ → ℕ → ProcedureContext → ProcedureContext
event_context event_counter passed_error c =
    if not (is_awaiting_instant c.phase)
    then c
    else event_with c.instant event_counter passed_error c

unfoldable pub on_connection_event : ProcedureManager → ℕ → ℕ → ProcedureManager
on_connection_event m event_counter passed_error = record {
  local = on_some (event_context event_counter passed_error) m.local;
  remote = on_some (event_context event_counter passed_error) m.remote;
}
