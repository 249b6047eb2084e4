-- ===== src/Examples/Procedures/Control.antt =====
-- Control procedures on concrete values.
use ch58x_hal.Base.{ℕ, ◌≤◌, ◌≡◌, ◌↔◌, ◌⊎◌, refl, arith}
use ch58x_hal.Base.{true, false, none, some, List, [], ◌∷◌, err}
use ch58x_hal.LinkLayer.Timing.{}
use ch58x_hal.LinkLayer.ControlPdu.{}
use ch58x_hal.LinkLayer.ControlPdu.Update.{}
use ch58x_hal.LinkLayer.ChannelSelection.Selection.{}
use ch58x_hal.Llcp.Procedure.{
  ProcedureContext, ProcedureManager, ProcedureToken, termination, channel_map_update,
  local_initiator, remote_initiator, awaiting_instant, awaiting_response, complete, missing_context,
  new_context,
}
use ch58x_hal.Llcp.Timers.{check_timeouts}
use ch58x_hal.Llcp.Procedure
use ch58x_hal.Llcp.Transmit
use ch58x_hal.Llcp.Calls.{
  call_tx_done, call_start_local, call_nesn_ack, Request, perform, HoldsSettled, contexts_settled,
}
use ch58x_hal.Llcp.Calls
use ch58x_hal.Llcp.Refusal.{error_keeps_manager}
use ch58x_hal.Llcp.Timeout.{IsSlotDue, TimedOut, check_timeouts_due}
use ch58x_hal.Llcp.Instants
use ch58x_hal.Llcp.Starting.{}

abbrev token : ProcedureToken
token = record { owner_token = 3; generation = 1 }

abbrev request : Request
request = record {
  kind = termination;
  token = token;
  tx_opcode = 0x02;
  expected_response_opcode = some 0x0d;
  instant = none;
  response_timeout_us = some 40_000_000;
}

abbrev some_calls : List Calls.Call
some_calls =
    call_start_local local_initiator request
    ∷ call_tx_done local_initiator token
    ∷ call_nesn_ack local_initiator token 5_000
    ∷ []

contexts_settled_example :
    HoldsSettled (Calls.after Procedure.new some_calls).local
    × HoldsSettled (Calls.after Procedure.new some_calls).remote
contexts_settled_example = contexts_settled some_calls

missing : (perform Procedure.new (call_tx_done local_initiator token)).1 ≡ err missing_context
unfolding perform Procedure.new Transmit.tx_done
missing = refl

error_keeps_manager_example :
    (perform Procedure.new (call_tx_done local_initiator token)).0 ≡ Procedure.new
error_keeps_manager_example =
    error_keeps_manager Procedure.new (call_tx_done local_initiator token) missing_context missing

abbrev pub waiting : ProcedureContext
waiting = record {
  kind = channel_map_update;
  initiator = remote_initiator;
  phase = awaiting_instant;
  token = token;
  tx_opcode = 0;
  expected_response_opcode = none;
  instant = some 2;
  response_timeout_us = 0;
  response_deadline_us = 0;
  pending_response = false;
  error = none;
}

abbrev manager : ProcedureManager
manager = record {
  local = some (record waiting {
    phase = awaiting_response;
    initiator = local_initiator;
    response_deadline_us = 900;
  });
  remote = some waiting;
}

check_timeouts_due_example :
    TimedOut 1_000 0x22 manager.local (check_timeouts manager 1_000 0x22).0.local
    × TimedOut 1_000 0x22 manager.remote (check_timeouts manager 1_000 0x22).0.remote
    × (((check_timeouts manager 1_000 0x22).1 ≡ true)
        ↔ (IsSlotDue 1_000 manager.local ⊎ IsSlotDue 1_000 manager.remote))
check_timeouts_due_example = check_timeouts_due manager 1_000 0x22

instant_completes_example :
    ((n : ℕ) → n ≤ 4 → (Instants.events n 65_534 0x28 manager).remote ≡ some waiting)
    × ((d : ProcedureContext) × ((Instants.events 5 65_534 0x28 manager).remote ≡ some d)
        × (d.phase ≡ complete)
        × (d.response_deadline_us ≡ 0))
instant_completes_example =
    Instants.instant_completes manager waiting 65_534 4 0x28 refl
      (record { phase = refl; instant = refl }) (omega arith)
