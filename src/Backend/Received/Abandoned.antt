-- ===== src/Backend/Received/Abandoned.antt =====
-- A local connection parameter request that is given up before the peer has acknowledged it.
use ch58x_hal.Base.{ℕ, ◌≡◌}
use ch58x_hal.Base.{Option, none, some}
use ch58x_hal.Llcp.Procedure.{ProcedureContext}
use ch58x_hal.Backend.Transport.{Host}
use ch58x_hal.Backend.Connection.{ActiveConnection, PendingData, control}
use ch58x_hal.Backend.Received.{Handled, abandon_request}
use ch58x_hal.Backend.Event.{Radio}

-- The PDU of the local procedure waits for its transmission or its acknowledgment.
pub record IsUnacknowledged (c : ActiveConnection) (context : ProcedureContext) (pdu : PendingData)
    : Type 0 where
  pub owner : c.procedures.local ≡ some context
  pub waiting : c.pending_control ≡ some pdu
  pub token : pdu.owner_token ≡ context.token.owner_token
  pub transmitted : c.transmitted ≡ control

-- The event ends the connection with this reason.
abbrev pub EndsWith : ℕ → Option Handled → Type 0
EndsWith reason none = ⊥
EndsWith reason (some (c, h, ended)) = ended ≡ some reason

module _ (c : ActiveConnection) (context : ProcedureContext) (pdu : PendingData) (error : ℕ)
    (h : Host) (u : IsUnacknowledged c context pdu) where
  -- The connection with the request given up.
  abbrev abandoned : ActiveConnection
  abandoned = (abandon_request c error h).0
