-- ===== src/Backend/Acl/Eventful.antt =====
-- A connection event as a whole, for the ACL packets of the host.
use ch58x_hal.Base.{ℕ, ◌+◌, ◌-◌, ◌*◌, ◌≡◌, ◌⊎◌, refl, sym, ap, ap₂, subst, ◌∙◌, inl, inr}
use ch58x_hal.Base.{Bool, true, false, ◌||◌, ◌&&◌, not, Option, none, some, List, [], ◌∷◌, ok, err}
use ch58x_hal.Base.{
  ◌==◌, is_some, bit_xor, bit_and, length, take, ltb, Bool-cases, if_of_true, if_of_false,
}
use ch58x_hal.LinkLayer.Sequence.{acknowledges_transmit_owner}
use ch58x_hal.Radio.{Channel}
use ch58x_hal.Backend.Transport.{Host}
use ch58x_hal.Backend.Connection.{ActiveConnection, TransmittedPdu, no_pdu, control, acl, empty}
use ch58x_hal.Backend.Control.{is_no_pdu, no_frame, Step}
use ch58x_hal.Backend.Frame.{is_control, refresh_frame, first_slot, shifted}
use ch58x_hal.Backend.Received.{Handled}
use ch58x_hal.Backend.Event.{
  Exchange, note_transmitted, sent_terminate, acknowledge, accept, closed, acknowledged, on_packet,
  on_payload, after_transmit, after_exchange, exchanged,
}
use ch58x_hal.Backend.Acl.Untouched.{credits}
use ch58x_hal.Backend.Acl.Moves.{Steady, AllQuiet, accept-Quiet, closed-Quiet}
use ch58x_hal.Backend.Acl.Staging.{carries, IsSending, Halted, Staged, Ready, is_stale}
use ch58x_hal.Backend.Acl.Heard.{
  pdu_header, heard_header, confirms, is_outstanding, is_confirmed, is_acknowledged,
  acknowledges_lem, refused_header, short_header, whole_header,
}
use ch58x_hal.Backend.Acl.Acknowledging.{
  refresh-Staged, note-Ready, Popped, Released, Answered, acknowledge-Answered,
}

-- Nothing is acknowledged: the ACL packets, the sequence number and the credits are the same.
pub record Waits (c : ActiveConnection) (h : Host) (d : ActiveConnection) (k : Host) : Type 0 where
  pub halted : Halted c d
  pub same_credits : credits k.sent ≡ credits h.sent

-- A frame that was sent before is acknowledged.
pub record Releases (c : ActiveConnection) (h : Host) (d : ActiveConnection) (k : Host)
    : Type 0 where
  pub framed : no_frame c.tx_frame ≡ false
  pub sent_before : c.tx_frame_fresh ≡ false
  pub flipped : d.transmit_sn ≡ bit_xor c.transmit_sn 1
  pub popped : Popped c.transmitted c h d k

-- The two ways an event may go, by whether the peer acknowledges the frame: without it nothing moves,
-- and with it the frame is released, unless the connection ends with an excuse. The frame invariant
-- holds unless the connection ends.
abbrev pub GoesUnless : Type 0 → Bool → ActiveConnection → Host → Handled → Type 0
GoesUnless excuse acked c h (d, k, reason) =
    ((Waits c h d k × ((acked ≡ false) ⊎ ((is_some reason ≡ true) × excuse)))
      ⊎ (Releases c h d k × (acked ≡ true)))
    × (IsSending d ⊎ (is_some reason ≡ true))

-- Behind the opening of an event only the acknowledgment of a control PDU may fail.
abbrev pub Goes : Bool → ActiveConnection → Host → Handled → Type 0
Goes acked c h result = GoesUnless (is_control c.transmitted ≡ true) acked c h result

abbrev pub AllGo : Bool → ActiveConnection → Host → Option Handled → Type 0
AllGo acked c h none = Unit {0}
AllGo acked c h (some result) = Goes acked c h result

Popped-from :
    (t : TransmittedPdu) (c d : ActiveConnection) (h : Host) (e f : ActiveConnection) (k l : Host)
    → Halted c d
    → Steady e f
    → credits l.sent ≡ credits k.sent
    → Popped t d h e k
    → Popped t c h f l
Popped-from acl c d h e f k l a s q (x, y, z) =
    (s.pending ∙ x ∙ ap first_slot a.queued_acl, s.queued_acl ∙ y ∙ ap shifted a.queued_acl, q ∙ z)
Popped-from control c d h e f k l a s q (x, y, z) =
    (s.pending ∙ x ∙ a.pending, s.queued_acl ∙ y ∙ a.queued_acl, q ∙ z)
Popped-from empty c d h e f k l a s q (x, y, z) =
    (s.pending ∙ x ∙ a.pending, s.queued_acl ∙ y ∙ a.queued_acl, q ∙ z)
Popped-from no_pdu c d h e f k l a s q (x, y, z) =
    (s.pending ∙ x ∙ a.pending, s.queued_acl ∙ y ∙ a.queued_acl, q ∙ z)

Halted-Steady : {c d e : ActiveConnection} → Halted c d → Steady d e → Halted c e
Halted-Steady a s = record {
  pending = s.pending ∙ a.pending;
  queued_acl = s.queued_acl ∙ a.queued_acl;
  transmit_sn = s.transmit_sn ∙ a.transmit_sn;
}

pub IsSending-Steady : {d e : ActiveConnection} → IsSending d → Steady d e → IsSending e
IsSending-Steady a s = record {
  frame = ap no_frame s.tx_frame ∙ a.frame ∙ sym (ap is_no_pdu s.transmitted);
  carrying = ap₂ carries s.transmitted s.pending ∙ a.carrying;
}

-- The rest of an event after a frame that is not acknowledged.
waits_on :
    (c d : ActiveConnection) (h : Host) (result : Option Handled)
    → Halted c d
    → IsSending d
    → AllQuiet d h result
    → AllGo false c h result
waits_on c d h none a i q = tt
waits_on c d h (some (e, k, reason)) a i q = (
  inl (record { halted = Halted-Steady a q.0; same_credits = q.1 }, inl refl),
  inl (IsSending-Steady i q.0),
)

-- The rest of an event after an acknowledgment.
goes_on :
    (c d : ActiveConnection) (h : Host) (e : ActiveConnection) (k : Host) (result : Option Handled)
    → Halted c d
    → no_frame c.tx_frame ≡ false
    → c.tx_frame_fresh ≡ false
    → d.transmitted ≡ c.transmitted
    → Released d h e k
    → AllQuiet e k result
    → AllGo true c h result
goes_on c d h e k none a f o t r q = tt
goes_on c d h e k (some (g, l, reason)) a f o t r q = (
  inr (
    record {
      framed = f;
      sent_before = o;
      flipped = q.0.transmit_sn ∙ r.flipped ∙ ap (λ (n : ℕ). bit_xor n 1) a.transmit_sn;
      popped =
          subst (λ (u : TransmittedPdu). Popped u c h g l) t
            (Popped-from d.transmitted c d h e g k l a q.0 q.1 r.popped);
    },
    refl,
  ),
  inl (record {
    frame =
        ap no_frame (q.0.tx_frame ∙ r.no_frame_left)
        ∙ sym (ap is_no_pdu (q.0.transmitted ∙ r.idle));
    carrying = ap (λ (t : TransmittedPdu). carries t g.pending) (q.0.transmitted ∙ r.idle);
  }),
)

-- Behind `acknowledge`, whether it has ended the event or not.
acknowledged-Goes :
    (header : ℕ) (payload : List ℕ) (sent : Bool) (anchor now : ℕ) (c d : ActiveConnection)
    (h : Host) (result : Handled)
    → Halted c d
    → no_frame c.tx_frame ≡ false
    → c.tx_frame_fresh ≡ false
    → d.transmitted ≡ c.transmitted
    → Answered d h result
    → AllGo true c h (acknowledged header payload sent anchor now result)
acknowledged-Goes header payload sent anchor now c d h (e, k, some reason) a f o t r = (
  inl (
    record {
      halted = record {
        pending = r.0.pending ∙ a.pending;
        queued_acl = r.0.queued_acl ∙ a.queued_acl;
        transmit_sn = r.0.transmit_sn ∙ a.transmit_sn;
      };
      same_credits = r.1;
    },
    inr (refl, ap is_control (sym t) ∙ r.2),
  ),
  inr refl,
)
acknowledged-Goes header payload sent anchor now c d h (e, k, none) a f o t r =
    goes_on c d h e k (closed sent anchor now (accept header payload e k)) a f o t r (
      closed-Quiet sent anchor now e k (accept header payload e k)
        (accept-Quiet header payload e k))

acknowledges_outstanding :
    (header sn : ℕ) (outstanding : Bool)
    → acknowledges_transmit_owner header sn outstanding false ≡ true
    → outstanding ≡ true
unfolding acknowledges_transmit_owner
acknowledges_outstanding header sn true h = refl
acknowledges_outstanding header sn false h = cc

-- The event after the exchange, with a frame that stands.
module _ (c d : ActiveConnection) (h : Host) (outstanding : Bool) (s : Staged c d outstanding) where
  staged-IsSending : IsSending d
  staged-IsSending = record { frame = s.framed ∙ sym s.sending; carrying = s.carrying }

  unacknowledged : Goes false c h (d, h, none)
  unacknowledged =
      (inl (record { halted = s.halted; same_credits = refl }, inl refl), inl staged-IsSending)

  -- Nothing is acknowledged by what is not heard.
  unheard : (heard : Option ℕ) → heard ≡ none → AllGo (is_confirmed c heard) c h (some (d, h, none))
  unheard heard e =
      subst (λ b. Goes b c h (d, h, none)) (sym (ap (is_confirmed c) e ∙ never (is_outstanding c)))
        unacknowledged
    where
      never : (b : Bool) → (b && false) ≡ false
      never true = refl
      never false = refl

  confirmed_lem :
      (header : ℕ)
      → acknowledges_transmit_owner header d.transmit_sn outstanding false
        ≡ is_confirmed c (some header)
  confirmed_lem header =
      acknowledges_lem header d.transmit_sn outstanding
      ∙ ap₂ (λ (b : Bool) (sn : ℕ). b && confirms sn (some header)) s.outstanding_is
          s.halted.transmit_sn

  on_packet-Goes :
      (header : ℕ) (payload : List ℕ) (x : Exchange) (sent : Bool) (clock : ℕ → ℕ)
      → AllGo
          (is_confirmed c (some header))
          c
          h
          (on_packet header payload x outstanding sent clock d h)
  unfolding on_packet
  on_packet-Goes header payload x sent clock =
      elim (Bool-cases (acknowledges_transmit_owner header d.transmit_sn outstanding false)) [
        | inl e ↦
            let old = s.stale (acknowledges_outstanding header d.transmit_sn outstanding e) in
            subst
              (λ r.
                AllGo (is_confirmed c (some header)) c h
                  (acknowledged header payload sent anchor (clock 3) r))
              (sym (if_of_true _ (acknowledge f (clock 2) h) (f, h, none) e))
              (subst
                (λ b.
                  AllGo b c h
                    (acknowledged header payload sent anchor (clock 3) (acknowledge f (clock 2) h)))
                (sym e ∙ confirmed_lem header)
                (acknowledged-Goes header payload sent anchor (clock 3) c f h
                  (acknowledge f (clock 2) h) halted old.0 old.1 old.2
                  (acknowledge-Answered f (clock 2) h)))
        | inr e ↦
            subst
              (λ r.
                AllGo (is_confirmed c (some header)) c h
                  (acknowledged header payload sent anchor (clock 3) r))
              (sym (if_of_false _ (acknowledge f (clock 2) h) (f, h, none) e))
              (subst (λ b. AllGo b c h (closed sent anchor (clock 3) (accept header payload f h)))
                (sym e ∙ confirmed_lem header)
                (waits_on c f h (closed sent anchor (clock 3) (accept header payload f h)) halted
                  (record { frame = staged-IsSending.frame; carrying = staged-IsSending.carrying })
                  (closed-Quiet sent anchor (clock 3) f h (accept header payload f h)
                    (accept-Quiet header payload f h))))
      ]
    where
      f : ActiveConnection
      f = record d {
        last_rssi = x.rssi_dbm;
        supervision_deadline = clock 1 + d.request.supervision_timeout * 10_000;
      }

      anchor : ℕ
      anchor = x.timestamp_us - (1 + 4 + 2 + length payload + 3) * 8

      halted : Halted c f
      halted = record {
        pending = s.halted.pending;
        queued_acl = s.halted.queued_acl;
        transmit_sn = s.halted.transmit_sn;
      }

  on_payload-Goes :
      (octets : List ℕ) (x : Exchange) (sent : Bool) (clock : ℕ → ℕ)
      → AllGo
          (is_confirmed c (pdu_header octets))
          c
          h
          (on_payload octets x outstanding sent clock d h)
  unfolding on_payload
  on_payload-Goes [] x sent clock = unheard none refl
  on_payload-Goes (header ∷ []) x sent clock = unheard none refl
  on_payload-Goes (header ∷ size ∷ body) x sent clock =
      elim (Bool-cases (ltb 27 size || bit_and header 0x03 == 0)) [
        | inl e ↦
            subst Here (sym (if_of_true _ _ _ e))
              (unheard heard (refused_header header size body e))
        | inr e ↦
            subst Here (sym (if_of_false _ _ _ e)) (elim (Bool-cases (ltb (length body) size)) [
              | inl f ↦
                  subst Here (sym (if_of_true _ _ _ f))
                    (unheard heard (short_header header size body f))
              | inr f ↦ subst Here (sym (if_of_false _ _ _ f)) (
                  subst (λ o. AllGo (is_confirmed c o) c h packet)
                    (sym (whole_header header size body e f))
                    (on_packet-Goes header (take size body) x sent clock))
            ])
      ]
    where
      heard : Option ℕ
      heard = pdu_header (header ∷ size ∷ body)

      Here : Option Handled → Type 0
      Here result = AllGo (is_confirmed c heard) c h result

      packet : Option Handled
      packet = on_packet header (take size body) x outstanding sent clock d h

after_transmit-Goes :
    (c : ActiveConnection) (h : Host) (x : Exchange) (outstanding : Bool) (clock : ℕ → ℕ) (p : Step)
    → Ready c (λ d. outstanding) p
    → AllGo (is_acknowledged c (some x)) c h (after_transmit x outstanding clock h p)
after_transmit-Goes c h x outstanding clock (d, err e) r = (
  inl (
    record { halted = r.0; same_credits = refl },
    inl (ap (λ b. b && confirms c.transmit_sn (heard_header (some x))) r.1),
  ),
  inr refl,
)
after_transmit-Goes c h x outstanding clock (d, ok done) r = elim (Bool-cases x.crc_ok) [
  | inl e ↦ subst Here (sym (if_of_false (not x.crc_ok) _ _ (ap not e))) (
      subst (λ o. AllGo (is_confirmed c o) c h payload) (sym (if_of_true x.crc_ok _ _ e))
        (on_payload-Goes c d h outstanding r x.payload x (sent_terminate d x) clock))
  | inr e ↦
      subst Here (sym (if_of_true (not x.crc_ok) _ _ (ap not e)))
        (unheard c d h outstanding r (heard_header (some x)) (if_of_false x.crc_ok _ _ e))
]
  where
    Here : Option Handled → Type 0
    Here result = AllGo (is_acknowledged c (some x)) c h result

    payload : Option Handled
    payload = on_payload x.payload x outstanding (sent_terminate d x) clock d h

after_exchange-Goes :
    (c d : ActiveConnection) (h : Host) (x : Option Exchange) (clock : ℕ → ℕ)
    → Staged c d (is_stale d)
    → AllGo (is_acknowledged c x) c h (after_exchange x clock d h)
after_exchange-Goes c d h none clock s = unheard c d h (is_stale d) s none refl
after_exchange-Goes c d h (some x) clock s =
    after_transmit-Goes c h x (is_stale d) clock (note_transmitted d x) (note-Ready c d x s)

pub exchanged-Goes :
    (x : Option Exchange) (clock : ℕ → ℕ) (channel : Channel) (deadline timeout : ℕ)
    (c : ActiveConnection) (h : Host) (p : Step)
    → Ready c is_stale p
    → AllGo (is_acknowledged c x) c h (exchanged (λ call. x) clock channel deadline timeout h p)
exchanged-Goes x clock channel deadline timeout c h (d, err e) r = (
  inl (
    record { halted = r.0; same_credits = refl },
    inl (ap (λ b. b && confirms c.transmit_sn (heard_header x)) r.1),
  ),
  inr refl,
)
exchanged-Goes x clock channel deadline timeout c h (d, ok done) r =
    after_exchange-Goes c (refresh_frame d) h x clock
      (refreshed_stale (refresh-Staged c d (is_stale d) r))
  where
    refreshed_stale :
        Staged c (refresh_frame d) (is_stale d)
        → Staged c (refresh_frame d) (is_stale (refresh_frame d))
    refreshed_stale s = unfold refresh_frame in s
