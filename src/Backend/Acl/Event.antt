-- ===== src/Backend/Acl/Event.antt =====
-- `connection_event` and the ACL packets of the host.
use ch58x_hal.Base.{ℕ, ◌≡◌, ◌⊎◌, refl, sym, ap, subst, ◌∙◌, inl, inr}
use ch58x_hal.Base.{arith, Bool, true, false, Option, none, some, Result, ok, err, bit_xor, is_some}
use ch58x_hal.Backend.Transport.{Host}
use ch58x_hal.Backend.Connection.{ActiveConnection, TransmittedPdu, no_pdu, control, acl, empty}
use ch58x_hal.Backend.Schedule.{next_channel, take_receive_timeout, receive_close}
use ch58x_hal.Backend.Control.{no_frame}
use ch58x_hal.Backend.Frame.{is_control, first_slot, shifted}
use ch58x_hal.Backend.Received.{Handled}
use ch58x_hal.Radio.{Error, Channel}
use ch58x_hal.Backend.Acl.Heard.{is_acknowledged, is_acknowledged-Steady}
use ch58x_hal.Backend.Event.{
  Exchange, tuned, apply_and_tell, stage, exchanged, opened, connection_event,
}
use ch58x_hal.Backend.Acl.Untouched.{credits}
use ch58x_hal.Backend.Acl.Moves.{
  Steady, Steady-trans, Quiet, next_channel-Steady, timeout-Steady, apply_and_tell-Quiet,
}
use ch58x_hal.Backend.Acl.Staging.{IsSending, stage-Ready}
use ch58x_hal.Backend.Acl.Acknowledging.{Popped}
use ch58x_hal.Backend.Acl.Eventful.{
  Waits, Releases, GoesUnless, AllGo, IsSending-Steady, exchanged-Goes,
}

Popped-base :
    (t : TransmittedPdu) (c d : ActiveConnection) (h k : Host) (e : ActiveConnection) (l : Host)
    → Steady c d
    → credits k.sent ≡ credits h.sent
    → Popped t d k e l
    → Popped t c h e l
Popped-base acl c d h k e l s q (x, y, z) =
    (x ∙ ap first_slot s.queued_acl, y ∙ ap shifted s.queued_acl, omega (arith, z, q))
Popped-base control c d h k e l s q (x, y, z) = (x ∙ s.pending, y ∙ s.queued_acl, z ∙ q)
Popped-base empty c d h k e l s q (x, y, z) = (x ∙ s.pending, y ∙ s.queued_acl, z ∙ q)
Popped-base no_pdu c d h k e l s q (x, y, z) = (x ∙ s.pending, y ∙ s.queued_acl, z ∙ q)

abbrev AllGoUnless : Type 0 → Bool → ActiveConnection → Host → Option Handled → Type 0
AllGoUnless excuse acked c h none = Unit {0}
AllGoUnless excuse acked c h (some result) = GoesUnless excuse acked c h result

-- The connection may end with the reason of its opening, or by a control PDU.
abbrev pub MayEnd : ActiveConnection → Option ℕ → Type 0
MayEnd c opening = (is_control c.transmitted ≡ true) ⊎ (is_some opening ≡ true)

excused :
    (acked : Bool) (c d : ActiveConnection) (opening reason : Option ℕ)
    → d.transmitted ≡ c.transmitted
    → (acked ≡ false) ⊎ ((is_some reason ≡ true) × (is_control d.transmitted ≡ true))
    → (acked ≡ false) ⊎ ((is_some reason ≡ true) × MayEnd c opening)
excused acked c d opening reason t (inl kept) = inl kept
excused acked c d opening reason t (inr (over, failed)) =
    inr (over, inl (ap is_control (sym t) ∙ failed))

AllGo-from :
    (acked : Bool) (c d : ActiveConnection) (h k : Host) (opening : Option ℕ)
    (result : Option Handled)
    → Steady c d
    → credits k.sent ≡ credits h.sent
    → AllGo acked d k result
    → AllGoUnless (MayEnd c opening) acked c h result
AllGo-from acked c d h k opening none s q g = tt
AllGo-from acked c d h k opening (some (e, l, reason)) s q (inl (w, told), i) = (
  inl (
    record {
      halted = record {
        pending = w.halted.pending ∙ s.pending;
        queued_acl = w.halted.queued_acl ∙ s.queued_acl;
        transmit_sn = w.halted.transmit_sn ∙ s.transmit_sn;
      };
      same_credits = w.same_credits ∙ q;
    },
    excused acked c d opening reason s.transmitted told,
  ),
  i,
)
AllGo-from acked c d h k opening (some (e, l, reason)) s q (inr (r, told), i) = (
  inr (
    record {
      framed = sym (ap no_frame s.tx_frame) ∙ r.framed;
      sent_before = sym s.fresh ∙ r.sent_before;
      flipped = r.flipped ∙ ap (λ (n : ℕ). bit_xor n 1) s.transmit_sn;
      popped =
          subst (λ (t : TransmittedPdu). Popped t c h e l) s.transmitted
            (Popped-base d.transmitted c d h k e l s q r.popped);
    },
    told,
  ),
  i,
)

tuned-Goes :
    (x : Option Exchange) (clock : ℕ → ℕ) (channel : Result Channel Error) (c d : ActiveConnection)
    (h k : Host) (opening : Option ℕ)
    → IsSending c
    → Steady c d
    → credits k.sent ≡ credits h.sent
    → AllGoUnless (MayEnd c opening) (is_acknowledged c x) c h (tuned (λ call. x) clock channel d k)
tuned-Goes x clock (err e) c d h k opening i s q = tt
tuned-Goes x clock (ok channel) c d h k opening i s q =
    let f = (take_receive_timeout d).0 in
    let t = Steady-trans s (timeout-Steady d) in
    let result =
      exchanged (λ call. x) clock channel (receive_close d) (take_receive_timeout d).1 k
        (stage f) in
    AllGo-from (is_acknowledged c x) c f h k opening result t q (
      subst (λ b. AllGo b f k result) (is_acknowledged-Steady c f x t)
        (exchanged-Goes x clock channel (receive_close d) (take_receive_timeout d).1 f k (stage f)
          (stage-Ready f (IsSending-Steady i t))))

opened-Goes :
    (x : Option Exchange) (clock : ℕ → ℕ) (c : ActiveConnection) (h : Host) (result : Handled)
    → IsSending c
    → Quiet c h result
    → AllGoUnless (MayEnd c result.2) (is_acknowledged c x) c h (opened (λ call. x) clock result)
opened-Goes x clock c h (d, k, some reason) i q = (
  inl (
    record {
      halted = record {
        pending = q.0.pending;
        queued_acl = q.0.queued_acl;
        transmit_sn = q.0.transmit_sn;
      };
      same_credits = q.1;
    },
    inr (refl, inr refl),
  ),
  inr refl,
)
opened-Goes x clock c h (d, k, none) i q =
    tuned-Goes x clock (next_channel d).1 c (next_channel d).0 h k none i
      (Steady-trans q.0 (next_channel-Steady d)) q.1

-- An event in which the radio gives `x`. Only if the peer acknowledges the frame that was sent in an
-- earlier event, in a packet whose CRC and lengths are right and whose NESN bit differs from the
-- sequence number, does anything move: the sequence number changes, and if that frame carried an ACL
-- packet, that packet alone gives way to those behind it and one credit is returned. If the peer does
-- acknowledge it, this happens, unless the event ends the connection at its opening, by an instant, or
-- because the frame carried a control PDU. Otherwise the ACL packets, the sequence number and the
-- credits are as they were. A frame stands afterwards exactly if something is
-- on its way, unless the event ends the connection.
pub connection_event_goes :
    (x : Option Exchange) (clock : ℕ → ℕ) (c d : ActiveConnection) (h k : Host) (reason : Option ℕ)
    → IsSending c
    → connection_event (λ call. x) clock c h ≡ some (d, k, reason)
    → ((Waits c h d k
          × ((is_acknowledged c x ≡ false)
              ⊎ ((is_some reason ≡ true) × MayEnd c (apply_and_tell c (clock 0) h).2)))
        ⊎ (Releases c h d k × (is_acknowledged c x ≡ true)))
      × (IsSending d ⊎ (is_some reason ≡ true))
unfolding connection_event
connection_event_goes x clock c d h k reason i e =
    subst (AllGoUnless (MayEnd c (apply_and_tell c (clock 0) h).2) (is_acknowledged c x) c h) e (
      opened-Goes x clock c h (apply_and_tell c (clock 0) h) i (apply_and_tell-Quiet c (clock 0) h))
