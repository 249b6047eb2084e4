-- ===== src/Llcp/Procedure.antt =====
-- The types of crates/ble-controller/src/llcp.rs, and the constructors.
use ch58x_hal.Base.{ℕ, Bool, true, false, Option, none, some}
use ch58x_hal.Base.{Result}
use ch58x_hal.LinkLayer.ControlPdu.{InstantProcedure, procedure_collision_error}
use ch58x_hal.LinkLayer.ControlPdu

pub data ProcedureKind : Type 0 where
  termination feature_exchange version_exchange connection_parameters : ProcedureKind
  connection_update channel_map_update ping : ProcedureKind

unfoldable pub instant_procedure : ProcedureKind → Option InstantProcedure
instant_procedure connection_parameters = some ControlPdu.connection_parameters_request
instant_procedure connection_update = some ControlPdu.connection_update
instant_procedure channel_map_update = some ControlPdu.channel_map_update
instant_procedure _ = none

pub data ProcedureInitiator : Type 0 where
  local_initiator remote_initiator : ProcedureInitiator

pub data ProcedurePhase : Type 0 where
  queued awaiting_tx_ack awaiting_response response_queued_phase : ProcedurePhase
  awaiting_instant complete failed : ProcedurePhase

pub record ProcedureToken : Type 0 where
  pub owner_token : ℕ
  pub generation : ℕ

pub record ProcedureContext : Type 0 where
  pub kind : ProcedureKind
  pub initiator : ProcedureInitiator
  pub phase : ProcedurePhase
  pub token : ProcedureToken
  pub tx_opcode : ℕ
  pub expected_response_opcode : Option ℕ
  pub instant : Option ℕ
  pub response_timeout_us : ℕ
  pub response_deadline_us : ℕ
  pub pending_response : Bool
  pub error : Option ℕ

abbrev unwrap_or_zero : Option ℕ → ℕ
unwrap_or_zero (some n) = n
unwrap_or_zero none = 0

unfoldable pub new_context :
    ProcedureKind
    → ProcedureInitiator
    → ProcedureToken
    → ℕ
    → Option ℕ
    → Option ℕ
    → Option ℕ
    → ProcedureContext
new_context kind initiator token tx_opcode expected_response_opcode instant timeout = record {
  kind = kind;
  initiator = initiator;
  phase = queued;
  token = token;
  tx_opcode = tx_opcode;
  expected_response_opcode = expected_response_opcode;
  instant = instant;
  response_timeout_us = unwrap_or_zero timeout;
  response_deadline_us = 0;
  pending_response = false;
  error = none;
}

abbrev is_active_phase : ProcedurePhase → Bool
is_active_phase complete = false
is_active_phase failed = false
is_active_phase _ = true

abbrev pub active : ProcedureContext → Bool
active c = is_active_phase c.phase

pub data ProcedureError : Type 0 where
  busy missing_context stale_token invalid_phase wrong_opcode : ProcedureError
  collision_error : ℕ → ProcedureError

pub record ProcedureManager : Type 0 where
  pub local : Option ProcedureContext
  pub remote : Option ProcedureContext

unfoldable pub new : ProcedureManager
new = record { local = none; remote = none }

abbrev pub Outcome : Type 0 → Type 0
Outcome S = S × Result (Unit {0}) ProcedureError

abbrev pub is_local : ProcedureInitiator → Bool
is_local local_initiator = true
is_local remote_initiator = false

-- `slot.filter(|context| context.active())`, as a test.
abbrev pub holds_active : Option ProcedureContext → Bool
holds_active none = false
holds_active (some c) = active c
