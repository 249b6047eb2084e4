-- ===== src/Backend/Acl/Acknowledging.antt =====
-- What an acknowledgment releases, and the exchange before it.
use ch58x_hal.Base.{ℕ, ◌+◌, ◌≡◌, refl, sym, ap, ap₂, subst, ◌∙◌, inl, inr}
use ch58x_hal.Base.{Bool-cases, if_of_true, if_of_false, not, true}
use ch58x_hal.Backend.Acl.Heard.{is_outstanding}
use ch58x_hal.Base.{arith, Bool, false, ◌&&◌, none, some, List, [], ◌∷◌, ◌++◌, ok, err}
use ch58x_hal.Base.{if◌then◌else◌, if_both, bit_xor, u16_to_le}
use ch58x_hal.Hci.{event_enabled}
use ch58x_hal.Backend.Transport.{Host, event, event_packet, completed_acl}
use ch58x_hal.Backend.Connection.{ActiveConnection, TransmittedPdu, no_pdu, control, acl, empty}
use ch58x_hal.Backend.Control.{
  is_no_pdu, no_frame, complete_pending_control_transmit, acknowledge_pending_control, Step,
}
use ch58x_hal.Backend.Frame.{
  refreshed, refresh_frame, is_control, first_slot, shifted, release_transmitted, settle_transmit,
}
use ch58x_hal.Backend.Received.{Handled}
use ch58x_hal.Backend.Event.{Exchange, note_transmitted, sent_once, acknowledge, released}
use ch58x_hal.Backend.Acl.Untouched.{credits, credits-append}
use ch58x_hal.Backend.Acl.Moves.{Steady}
use ch58x_hal.Backend.Acl.Staging.{
  carries, Halted, Staged, Ready, is_stale, complete-Steady, control-Steady,
}

no_frame-refreshed : (xs : List ℕ) (sn nesn : ℕ) → no_frame (refreshed xs sn nesn) ≡ no_frame xs
no_frame-refreshed [] sn nesn = refl
no_frame-refreshed (x ∷ xs) sn nesn = refl

pub refresh-Staged :
    (c d : ActiveConnection) (outstanding : Bool)
    → Staged c d outstanding
    → Staged c (refresh_frame d) outstanding
unfolding refresh_frame
refresh-Staged c d outstanding s = record {
  halted = record {
    pending = s.halted.pending;
    queued_acl = s.halted.queued_acl;
    transmit_sn = s.halted.transmit_sn;
  };
  framed = no_frame-refreshed d.tx_frame d.transmit_sn d.expected_sn ∙ s.framed;
  sending = s.sending;
  carrying = s.carrying;
  outstanding_is = s.outstanding_is;
  stale = s.stale;
}

pub Staged-Steady :
    (c d e : ActiveConnection) (outstanding : Bool)
    → Staged c d outstanding
    → Halted d e
    → e.tx_frame ≡ d.tx_frame
    → e.transmitted ≡ d.transmitted
    → Staged c e outstanding
Staged-Steady c d e outstanding s h f t = record {
  halted = record {
    pending = h.pending ∙ s.halted.pending;
    queued_acl = h.queued_acl ∙ s.halted.queued_acl;
    transmit_sn = h.transmit_sn ∙ s.halted.transmit_sn;
  };
  framed = ap no_frame f ∙ s.framed;
  sending = ap is_no_pdu t ∙ s.sending;
  carrying = ap₂ carries t h.pending ∙ s.carrying;
  outstanding_is = s.outstanding_is;
  stale = λ o. let old = s.stale o in (old.0, old.1, t ∙ old.2);
}

sent_once-Ready :
    (c d : ActiveConnection) (outstanding : Bool) (p : Step)
    → Staged c d outstanding
    → Steady d p.0
    → is_outstanding c ≡ false
    → Ready c (λ e. outstanding) (sent_once p)
sent_once-Ready c d outstanding (e, ok done) s st first =
    Staged-Steady c d (record e { tx_frame_fresh = false }) outstanding s
      (record { pending = st.pending; queued_acl = st.queued_acl; transmit_sn = st.transmit_sn })
      st.tx_frame st.transmitted
sent_once-Ready c d outstanding (e, err failed) s st first = (
  record {
    pending = st.pending ∙ s.halted.pending;
    queued_acl = st.queued_acl ∙ s.halted.queued_acl;
    transmit_sn = st.transmit_sn ∙ s.halted.transmit_sn;
  },
  first,
)

pub note-Ready :
    (c d : ActiveConnection) (x : Exchange)
    → Staged c d (is_stale d)
    → Ready c (λ e. is_stale d) (note_transmitted d x)
unfolding note_transmitted
note-Ready c d x s = elim (Bool-cases (d.tx_frame_fresh && x.transmitted)) [
  | inl e ↦ subst (Ready c (λ e. is_stale d)) (sym (if_of_true _ _ (d, ok tt) e)) (
      sent_once-Ready c d (is_stale d)
        (if is_control d.transmitted then complete_pending_control_transmit d else (d, ok tt)) s
        (if_both (λ (p : Step). Steady d p.0) (is_control d.transmitted) (complete-Steady d)
          (ground arith))
        (sym s.outstanding_is ∙ ap not (first d.tx_frame_fresh x.transmitted e)))
  | inr e ↦ subst (Ready c (λ e. is_stale d)) (sym (if_of_false _ _ (d, ok tt) e)) s
]
  where
    first : (a b : Bool) → (a && b) ≡ true → a ≡ true
    first true b e = refl
    first false b e = e

-- What has gone, by what was on its way: an ACL packet gives way to those behind it and returns a
-- credit; nothing else touches them.
abbrev pub Popped : TransmittedPdu → ActiveConnection → Host → ActiveConnection → Host → Type 0
Popped acl d h e k =
    (e.pending ≡ first_slot d.queued_acl)
    × (e.queued_acl ≡ shifted d.queued_acl)
    × (credits k.sent ≡ credits h.sent + 1)
Popped _ d h e k =
    (e.pending ≡ d.pending) × (e.queued_acl ≡ d.queued_acl) × (credits k.sent ≡ credits h.sent)

completed-credits :
    (handle count : ℕ) (h : Host) → credits (completed_acl handle count h).sent ≡ credits h.sent + 1
unfolding completed_acl event event_enabled
completed-credits handle count h = omega (
  arith,
  credits-append h.sent (
      record { kind = event_packet; bytes = 0x13 ∷ 5 ∷ 1 ∷ (u16_to_le handle ++ u16_to_le count) }
      ∷ []),
)

release_lem :
    (t : TransmittedPdu) (d : ActiveConnection) (h : Host)
    → let p = release_transmitted t d h in Popped t d h p.0 p.1 × (p.0.transmit_sn ≡ d.transmit_sn)
unfolding release_transmitted
release_lem acl d h = ((refl, refl, completed-credits d.handle 1 h), refl)
release_lem control d h = (ground arith, ground arith)
release_lem empty d h = ((refl, refl, refl), refl)
release_lem no_pdu d h = ((refl, refl, refl), refl)

-- The acknowledgment is taken: nothing is on its way, and the sequence number has changed.
pub record Released (d : ActiveConnection) (h : Host) (e : ActiveConnection) (k : Host)
    : Type 0 where
  pub flipped : e.transmit_sn ≡ bit_xor d.transmit_sn 1
  pub no_frame_left : e.tx_frame ≡ []
  pub idle : e.transmitted ≡ no_pdu
  pub popped : Popped d.transmitted d h e k

-- Either that, or the event ends with a reason, nothing has gone, and the frame has a control PDU.
abbrev pub Answered : ActiveConnection → Host → Handled → Type 0
Answered d h (e, k, none) = Released d h e k
Answered d h (e, k, some reason) =
    Halted d e × (credits k.sent ≡ credits h.sent) × (is_control d.transmitted ≡ true)

Popped-Steady :
    (t : TransmittedPdu) (d e : ActiveConnection) (h : Host) (f : ActiveConnection) (k : Host)
    → Steady d e
    → Popped t e h f k
    → Popped t d h f k
Popped-Steady acl d e h f k s (p, q, r) =
    (p ∙ ap first_slot s.queued_acl, q ∙ ap shifted s.queued_acl, r)
Popped-Steady control d e h f k s (p, q, r) = (p ∙ s.pending, q ∙ s.queued_acl, r)
Popped-Steady empty d e h f k s (p, q, r) = (p ∙ s.pending, q ∙ s.queued_acl, r)
Popped-Steady no_pdu d e h f k s (p, q, r) = (p ∙ s.pending, q ∙ s.queued_acl, r)

Popped-settled :
    (t : TransmittedPdu) (d : ActiveConnection) (h : Host) (e : ActiveConnection) (k : Host)
    → Popped t d h e k
    → Popped t d h (settle_transmit e) k
unfolding settle_transmit
Popped-settled acl d h e k p = p
Popped-settled control d h e k p = p
Popped-settled empty d h e k p = p
Popped-settled no_pdu d h e k p = p

-- A step that may fail only for a control PDU.
abbrev FailsForControl : ActiveConnection → Step → Type 0
FailsForControl d (e, err failed) = is_control d.transmitted ≡ true
FailsForControl d (e, ok done) = Unit {0}

control-Fails :
    (d : ActiveConnection) (p : Step) → is_control d.transmitted ≡ true → FailsForControl d p
control-Fails d (e, err failed) c = c
control-Fails d (e, ok done) c = tt

released-Answered :
    (d : ActiveConnection) (h : Host) (p : Step)
    → Steady d p.0
    → FailsForControl d p
    → Answered d h (released p h)
unfolding settle_transmit
released-Answered d h (e, err failed) s c = (
  record { pending = s.pending; queued_acl = s.queued_acl; transmit_sn = s.transmit_sn },
  refl,
  c,
)
released-Answered d h (e, ok done) s c =
    let l = release_lem e.transmitted e h in
    let f = (release_transmitted e.transmitted e h).0 in
    let k = (release_transmitted e.transmitted e h).1 in
    record {
      flipped = ap (λ (n : ℕ). bit_xor n 1) (l.1 ∙ s.transmit_sn);
      no_frame_left = refl;
      idle = refl;
      popped =
          subst (λ (t : TransmittedPdu). Popped t d h (settle_transmit f) k) s.transmitted
            (Popped-settled e.transmitted d h f k (Popped-Steady e.transmitted d e h f k s l.0));
    }

pub acknowledge-Answered :
    (d : ActiveConnection) (now : ℕ) (h : Host) → Answered d h (acknowledge d now h)
unfolding acknowledge
acknowledge-Answered d now h =
    released-Answered d h step
      (if_both (λ (p : Step). Steady d p.0) (is_control d.transmitted) (control-Steady d now)
        (ground arith))
      (elim (Bool-cases (is_control d.transmitted)) [
        | inl e ↦ control-Fails d step e
        | inr e ↦
            subst (FailsForControl d)
              (sym (
                if_of_false (is_control d.transmitted) (acknowledge_pending_control d now)
                  (d, ok tt) e))
              tt
      ])
  where
    step : Step
    step = if is_control d.transmitted then acknowledge_pending_control d now else (d, ok tt)
