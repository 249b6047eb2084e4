-- ===== src/Backend/Acl/Untouched.antt =====
-- What the control procedures leave alone: the ACL packets, the frame and the sequence numbers.
use ch58x_hal.Base.{ℕ, ◌+◌, ◌≡◌, ◌∙◌}
use ch58x_hal.Base.{arith, Bool, true, false, Option, none, List, [], ◌∷◌, ◌++◌, ok, err}
use ch58x_hal.Base.{◌==◌, if◌then◌else◌, length, ◌%◌}
use ch58x_hal.LinkLayer.ControlPdu.{}
use ch58x_hal.Llcp.Procedure.{
  ProcedureKind, ProcedureInitiator, local_initiator, remote_initiator, ProcedureToken,
  ProcedureManager, Outcome, busy, missing_context, stale_token, invalid_phase, wrong_opcode,
  collision_error, new_context,
}
use ch58x_hal.Llcp.Start.{start_local, start_remote}
use ch58x_hal.Backend.Transport.{Packet, PacketKind, event_packet, Host, event}
use ch58x_hal.Backend.Connection.{ActiveConnection}
use ch58x_hal.Backend.Queue.{allocate_control_token, queue_control_with_token, queue_control}
use ch58x_hal.Backend.Control.{
  or_fail, queue_response, after_start_remote, queue_remote_procedure_response_with_followup,
  start_outcome, start_remote_instant_procedure, after_start_local, queue_local_procedure,
  fail_procedure, with_procedures,
}
use ch58x_hal.Backend.Emit.{}
use ch58x_hal.Backend.Received.{answered}

pub record Untouched (c d : ActiveConnection) : Type 0 where
  pub pending : d.pending ≡ c.pending
  pub queued_acl : d.queued_acl ≡ c.queued_acl
  pub token : d.next_acl_owner_token ≡ c.next_acl_owner_token
  pub transmitted : d.transmitted ≡ c.transmitted
  pub tx_frame : d.tx_frame ≡ c.tx_frame
  pub fresh : d.tx_frame_fresh ≡ c.tx_frame_fresh
  pub transmit_sn : d.transmit_sn ≡ c.transmit_sn
  pub expected_sn : d.expected_sn ≡ c.expected_sn

abbrev is_credit : PacketKind → List ℕ → Bool
is_credit event_packet (code ∷ rest) = code == 0x13
is_credit _ _ = false

-- The packets that return a credit to the host.
abbrev pub credits : List Packet → ℕ
credits [] = 0
credits (packet ∷ packets) = (if is_credit packet.kind packet.bytes then 1 else 0) + credits packets

pub credits-append : (xs ys : List Packet) → credits (xs ++ ys) ≡ credits xs + credits ys
credits-append [] ys = omega arith
credits-append (x ∷ xs) ys = omega (arith, credits-append xs ys)

pub event-credits :
    (code : ℕ) (parameters : List ℕ) (h : Host)
    → (code == 0x13) ≡ false
    → credits (event code parameters h).0.sent ≡ credits h.sent
unfolding event
event-credits code parameters h ne = ground (
  arith,
  credits-append h.sent
      (record { kind = event_packet; bytes = code ∷ length parameters % 256 ∷ parameters } ∷ []),
)

pub Untouched-refl : (c : ActiveConnection) → Untouched c c
Untouched-refl c = ground arith

pub Untouched-trans : {c d e : ActiveConnection} → Untouched c d → Untouched d e → Untouched c e
Untouched-trans a b = record {
  pending = b.pending ∙ a.pending;
  queued_acl = b.queued_acl ∙ a.queued_acl;
  token = b.token ∙ a.token;
  transmitted = b.transmitted ∙ a.transmitted;
  tx_frame = b.tx_frame ∙ a.tx_frame;
  fresh = b.fresh ∙ a.fresh;
  transmit_sn = b.transmit_sn ∙ a.transmit_sn;
  expected_sn = b.expected_sn ∙ a.expected_sn;
}

module _ (c : ActiveConnection) where
  pub queue_control-Untouched : (bytes : List ℕ) → Untouched c (queue_control c bytes).0
  unfolding queue_control
  queue_control-Untouched bytes = ground arith

  pub token-Untouched : Untouched c (allocate_control_token c).0
  unfolding allocate_control_token
  token-Untouched = ground arith

  pub queued-Untouched :
      (bytes : List ℕ) (token : ProcedureToken)
      → Untouched c (queue_control_with_token c bytes token).0
  unfolding queue_control_with_token
  queued-Untouched bytes token = ground arith

  pub fail-Untouched :
      (initiator : ProcedureInitiator) (error : ℕ) → Untouched c (fail_procedure c initiator error)
  fail-Untouched initiator error = ground arith

  pub with-Untouched : (m : ProcedureManager) → Untouched c (with_procedures c m)
  with-Untouched m = ground arith

  pub answered-Untouched : (o : Outcome ProcedureManager) → Untouched c (answered c o).0
  answered-Untouched (m, ok done) = ground arith
  answered-Untouched (m, err e) = ground arith

  pub started-Untouched : (o : Outcome ProcedureManager) → Untouched c (start_outcome c o).0
  started-Untouched (m, ok done) = ground arith
  started-Untouched (m, err e) = ground arith

pub or_fail-Untouched :
    (c : ActiveConnection) (initiator : ProcedureInitiator) (p : ActiveConnection × Bool)
    → Untouched c p.0
    → Untouched c (or_fail initiator p).0
or_fail-Untouched c initiator (d, true) u = u
or_fail-Untouched c initiator (d, false) u = Untouched-trans u (fail-Untouched d initiator 0x3a)

pub queue_response-Untouched :
    (c : ActiveConnection) (token : ProcedureToken) (response : List ℕ)
    (o : Outcome ProcedureManager)
    → Untouched c (queue_response c token response o).0
queue_response-Untouched c token response (m, ok done) =
    or_fail-Untouched c remote_initiator _
      (Untouched-trans (with-Untouched c m) (queued-Untouched (with_procedures c m) response token))
queue_response-Untouched c token response (m, err e) =
    or_fail-Untouched c remote_initiator (with_procedures c m, false) (with-Untouched c m)

pub refused-Untouched :
    (c : ActiveConnection) (m : ProcedureManager) (bytes : List ℕ)
    → Untouched c (queue_control (with_procedures c m) bytes).0
refused-Untouched c m bytes =
    Untouched-trans (with-Untouched c m) (queue_control-Untouched (with_procedures c m) bytes)

pub after_start_local-Untouched :
    (c : ActiveConnection) (token : ProcedureToken) (request : List ℕ)
    (o : Outcome ProcedureManager)
    → Untouched c (after_start_local c token request o).0
after_start_local-Untouched c token request (m, ok done) =
    or_fail-Untouched c local_initiator _
      (Untouched-trans (with-Untouched c m) (queued-Untouched (with_procedures c m) request token))
after_start_local-Untouched c token request (m, err e) = with-Untouched c m

pub after_start_remote-Untouched :
    (c : ActiveConnection) (token : ProcedureToken) (request opcode : ℕ) (response : List ℕ)
    (o : Outcome ProcedureManager)
    → Untouched c (after_start_remote c token request opcode response o).0
after_start_remote-Untouched c token request opcode response (m, ok done) =
    Untouched-trans (with-Untouched c m)
      (queue_response-Untouched (with_procedures c m) token response _)
after_start_remote-Untouched c token request opcode response (m, err busy) = refused-Untouched c m _
after_start_remote-Untouched c token request opcode response (m, err missing_context) =
    refused-Untouched c m _
after_start_remote-Untouched c token request opcode response (m, err stale_token) =
    refused-Untouched c m _
after_start_remote-Untouched c token request opcode response (m, err invalid_phase) =
    refused-Untouched c m _
after_start_remote-Untouched c token request opcode response (m, err wrong_opcode) =
    refused-Untouched c m _
after_start_remote-Untouched c token request opcode response (m, err (collision_error e)) =
    refused-Untouched c m _

pub response-Untouched :
    (c : ActiveConnection) (kind : ProcedureKind) (request : ℕ) (response : List ℕ)
    (expected timeout : Option ℕ)
    → Untouched c
        (queue_remote_procedure_response_with_followup c kind request response expected timeout).0
unfolding queue_remote_procedure_response_with_followup
response-Untouched c kind request [] expected timeout = Untouched-refl c
response-Untouched c kind request (opcode ∷ rest) expected timeout =
    Untouched-trans (token-Untouched c) (
      after_start_remote-Untouched (allocate_control_token c).0 (allocate_control_token c).1 request
        opcode (opcode ∷ rest)
        (start_remote (allocate_control_token c).0.procedures (
          new_context kind remote_initiator (allocate_control_token c).1 opcode expected none
            timeout)))

pub start-Untouched :
    (c : ActiveConnection) (kind : ProcedureKind) (opcode instant : ℕ)
    → Untouched c (start_remote_instant_procedure c kind opcode instant).0
unfolding start_remote_instant_procedure
start-Untouched c kind opcode instant = Untouched-trans (token-Untouched c) (started-Untouched _ _)

pub local-Untouched :
    (c : ActiveConnection) (kind : ProcedureKind) (request : List ℕ) (expected timeout : Option ℕ)
    → Untouched c (queue_local_procedure c kind request expected timeout).0
unfolding queue_local_procedure
local-Untouched c kind [] expected timeout = Untouched-refl c
local-Untouched c kind (opcode ∷ rest) expected timeout = Untouched-trans (token-Untouched c) (
    after_start_local-Untouched (allocate_control_token c).0 (allocate_control_token c).1
      (opcode ∷ rest)
      (start_local (allocate_control_token c).0.procedures (
        new_context kind local_initiator (allocate_control_token c).1 opcode expected none
          timeout)))
