-- ===== src/Backend/Acl/Staging.antt =====
-- From the start of an event to the exchange: which frame goes out, and whether it was sent before.
use ch58x_hal.Base.{ℕ, ◌≡◌, refl, sym, ap, ap₂, subst, ◌∙◌, inl, inr}
use ch58x_hal.Base.{arith, Bool, true, false, ◌&&◌, not, Option, none, some, ok, err}
use ch58x_hal.Base.{if_both, is_some, Bool-cases, if_of_true, if_of_false}
use ch58x_hal.Llcp.Procedure.{ProcedureInitiator, ProcedureToken, ProcedureManager, Outcome}
use ch58x_hal.Llcp.Transmit.{tx_planned, tx_done, nesn_ack}
use ch58x_hal.Backend.Connection.{ActiveConnection, PendingData, TransmittedPdu, acl}
use ch58x_hal.Backend.Control.{
  is_no_pdu, no_frame, promote_priority_control_if_idle, plan_pending_control_procedure,
  complete_pending_control_transmit, acknowledge_pending_control, on_owner, forget_error,
  pending_owner, Step,
}
use ch58x_hal.Backend.Frame.{
  select_transmitted, build_transmit_frame, ensure_frame, planned, framed, is_control,
}
use ch58x_hal.Backend.Event.{stage}
use ch58x_hal.Backend.Acl.Moves.{Steady}
use ch58x_hal.Backend.Acl.Heard.{is_outstanding}

-- An ACL packet that is on its way stands in front of the queue.
abbrev pub carries : TransmittedPdu → Option PendingData → Bool
carries acl pending = is_some pending
carries _ pending = true

-- A frame stands exactly while something is on its way.
pub record IsSending (c : ActiveConnection) : Type 0 where
  pub frame : no_frame c.tx_frame ≡ is_no_pdu c.transmitted
  pub carrying : carries c.transmitted c.pending ≡ true

-- The ACL packets and the sequence number are the same.
pub record Halted (c d : ActiveConnection) : Type 0 where
  pub pending : d.pending ≡ c.pending
  pub queued_acl : d.queued_acl ≡ c.queued_acl
  pub transmit_sn : d.transmit_sn ≡ c.transmit_sn

-- A frame stands as well, and it is the old one if it has been sent before.
pub record Staged (c d : ActiveConnection) (outstanding : Bool) : Type 0 where
  pub halted : Halted c d
  pub framed : no_frame d.tx_frame ≡ false
  pub sending : is_no_pdu d.transmitted ≡ false
  pub carrying : carries d.transmitted d.pending ≡ true
  pub outstanding_is : outstanding ≡ is_outstanding c
  pub stale :
      outstanding ≡ true
      → (no_frame c.tx_frame ≡ false) × (c.tx_frame_fresh ≡ false) × (d.transmitted ≡ c.transmitted)

-- A part of an event that may fail, but only if no frame has been sent before.
abbrev pub Ready : ActiveConnection → (ActiveConnection → Bool) → Step → Type 0
Ready c outstanding (d, ok done) = Staged c d (outstanding d)
Ready c outstanding (d, err e) = Halted c d × (is_outstanding c ≡ false)

abbrev pub is_stale : ActiveConnection → Bool
is_stale d = not d.tx_frame_fresh

owner-Steady :
    (f : ProcedureInitiator → ProcedureToken → Outcome ProcedureManager) (c : ActiveConnection)
    (o : Option (ProcedureInitiator × ProcedureToken))
    → Steady c (on_owner f c o).0
owner-Steady f c none = ground arith
owner-Steady f c (some (initiator, token)) = forgotten (f initiator token)
  where
    forgotten : (o : Outcome ProcedureManager) → Steady c (forget_error c o).0
    forgotten (m, ok done) = ground arith
    forgotten (m, err e) = ground arith

plan-Steady : (c : ActiveConnection) → Steady c (plan_pending_control_procedure c).0
unfolding plan_pending_control_procedure
plan-Steady c = owner-Steady (tx_planned c.procedures) c (pending_owner c c.pending_control)

pub complete-Steady : (c : ActiveConnection) → Steady c (complete_pending_control_transmit c).0
unfolding complete_pending_control_transmit
complete-Steady c = owner-Steady (tx_done c.procedures) c (pending_owner c c.pending_control)

pub control-Steady :
    (c : ActiveConnection) (now : ℕ) → Steady c (acknowledge_pending_control c now).0
unfolding acknowledge_pending_control
control-Steady c now =
    owner-Steady (λ initiator token. nesn_ack c.procedures initiator token now) c
      (pending_owner c c.pending_control)

-- With a frame that waits for its acknowledgment nothing is promoted or selected.
idle_lem :
    (c : ActiveConnection)
    → IsSending c
    → no_frame c.tx_frame ≡ false
    → select_transmitted (promote_priority_control_if_idle c) ≡ c
unfolding select_transmitted promote_priority_control_if_idle
idle_lem c s e = ground (arith, s.frame, e)

selected_lem :
    (c : ActiveConnection)
    → IsSending c
    → (let d = select_transmitted (promote_priority_control_if_idle c) in
        (d.pending ≡ c.pending)
        × (d.queued_acl ≡ c.queued_acl)
        × (d.transmit_sn ≡ c.transmit_sn)
        × (d.tx_frame ≡ c.tx_frame)
        × (is_no_pdu d.transmitted ≡ false)
        × (carries d.transmitted d.pending ≡ true))
unfolding select_transmitted promote_priority_control_if_idle
selected_lem c s = ground (arith, s.frame, s.carrying)

planned-Steady : (c : ActiveConnection) → Steady c (planned c).0
planned-Steady c =
    if_both (λ (p : Step). Steady c p.0) (is_control c.transmitted) (plan-Steady c) (ground arith)

-- A frame that is built is fresh.
framed-Ready :
    (c d : ActiveConnection) (p : Step)
    → no_frame c.tx_frame ≡ true
    → Halted c d
    → is_no_pdu d.transmitted ≡ false
    → carries d.transmitted d.pending ≡ true
    → Steady d p.0
    → Ready c is_stale (framed p)
framed-Ready c d (e, err failed) none_stands h s w st = (
  record {
    pending = st.pending ∙ h.pending;
    queued_acl = st.queued_acl ∙ h.queued_acl;
    transmit_sn = st.transmit_sn ∙ h.transmit_sn;
  },
  ap (λ b. not b && not c.tx_frame_fresh) none_stands,
)
framed-Ready c d (e, ok done) none_stands h s w st = record {
  halted = record {
    pending = st.pending ∙ h.pending;
    queued_acl = st.queued_acl ∙ h.queued_acl;
    transmit_sn = st.transmit_sn ∙ h.transmit_sn;
  };
  framed = refl;
  sending = ap is_no_pdu st.transmitted ∙ s;
  carrying = ap₂ carries st.transmitted st.pending ∙ w;
  outstanding_is = sym (ap (λ b. not b && not c.tx_frame_fresh) none_stands);
  stale = λ impossible. cc;
}

pub stage-Ready : (c : ActiveConnection) → IsSending c → Ready c is_stale (stage c)
unfolding stage ensure_frame build_transmit_frame
stage-Ready c s = elim (Bool-cases (no_frame c.tx_frame)) [
  | inl e ↦
      let l = selected_lem c s in
      let d = select_transmitted (promote_priority_control_if_idle c) in
      subst (Ready c is_stale)
        (sym
          (if_of_true (no_frame d.tx_frame) (framed (planned d)) (d, ok tt) (ap no_frame l.3 ∙ e)))
        (framed-Ready c d (planned d) e
          (record { pending = l.0; queued_acl = l.1; transmit_sn = l.2 }) l.4 l.5
          (planned-Steady d))
  | inr e ↦
      subst (λ (d : ActiveConnection). Ready c is_stale (ensure_frame d)) (sym (idle_lem c s e))
        (subst (Ready c is_stale)
          (sym (if_of_false (no_frame c.tx_frame) (framed (planned c)) (c, ok tt) e))
          (record {
            halted = record { pending = refl; queued_acl = refl; transmit_sn = refl };
            framed = e;
            sending = sym s.frame ∙ e;
            carrying = s.carrying;
            outstanding_is = sym (ap (λ b. not b && not c.tx_frame_fresh) e);
            stale = λ old. (e, ground arith, refl);
          }))
]
