-- ===== src/Backend/Acl/Balance.antt =====
-- What each action does to the balance of the packets that are taken, acknowledged and waiting.
use ch58x_hal.Base.{ℕ, ◌+◌, ◌≡◌, refl, sym, ap, ap₂, subst, ◌∙◌, inl, inr}
use ch58x_hal.Base.{
  arith, Bool, true, Option, none, some, List, [], ◌∷◌, ◌++◌, length, is_some, Result, ok, err,
  length-append, Option-cases, if_of_true, if_of_false,
}
use mathlib.Core.List.{append_assoc, append-nil}
use ch58x_hal.Backend.Transport.{Packet, Host}
use ch58x_hal.Backend.Connection.{
  ActiveConnection, PendingData, TransmittedPdu, no_pdu, control, acl, empty,
  hci_command_disallowed,
}
use ch58x_hal.LinkLayer.ChannelSelection.{update_map}
use ch58x_hal.LinkLayer.ChannelSelection
use ch58x_hal.Backend.Schedule.{
  apply_channel_map, apply_connection_update, apply_instants, next_channel, skip_event,
  schedule_following_event,
}
use ch58x_hal.Backend.Queue.{acl_data_of, queue_acl}
use ch58x_hal.Backend.Control.{is_no_pdu, no_frame}
use ch58x_hal.Backend.Received.{Handled}
use ch58x_hal.Backend.Event.{Exchange, apply_and_tell, connection_event}
use ch58x_hal.Backend.Acl.Heard.{is_acknowledged}
use ch58x_hal.Backend.Acl.Slots.{entries, packed, shift_lem}
use ch58x_hal.Backend.Acl.Queueing.{acl_queue, IsQueue, queue_acl_placed, refusal}
use ch58x_hal.Backend.Acl.Untouched.{credits}
use ch58x_hal.Backend.Acl.Staging.{IsSending, carries}
use ch58x_hal.Backend.Frame.{first_slot, shifted}
use ch58x_hal.Backend.Acl.Acknowledging.{Popped}
use ch58x_hal.Backend.Acl.Eventful.{GoesUnless}
use ch58x_hal.Backend.Acl.Event.{MayEnd, connection_event_goes}
use ch58x_hal.Backend.Acl.Session.{
  Action, submit, hold, miss, Session, taken_after, held, missed, perform, on_its_way, confirmed_by,
  IsBalanced, Balanced,
}

queue_acl-IsSending :
    (c : ActiveConnection) (packet : Packet) → IsSending c → IsSending (queue_acl c packet).0
unfolding queue_acl
queue_acl-IsSending c packet s = ground (arith, s.frame, s.carrying)

skip_event-same :
    (c : ActiveConnection) (now : ℕ)
    → ((skip_event c now).0.pending ≡ c.pending)
      × ((skip_event c now).0.queued_acl ≡ c.queued_acl)
      × ((skip_event c now).0.transmitted ≡ c.transmitted)
      × ((skip_event c now).0.tx_frame ≡ c.tx_frame)
unfolding skip_event apply_instants apply_channel_map apply_connection_update
    schedule_following_event next_channel update_map ChannelSelection.next_channel
skip_event-same c now = ground arith

IsQueue-same :
    (c d : ActiveConnection)
    → d.pending ≡ c.pending
    → d.queued_acl ≡ c.queued_acl
    → IsQueue c
    → IsQueue d × (acl_queue d ≡ acl_queue c)
IsQueue-same c d p q i = (
  record {
    packed_slots = ap₂ (λ first rest. packed (first ∷ rest)) p q ∙ i.packed_slots;
    four = ap length q ∙ i.four;
  },
  ap₂ (λ first rest. entries (first ∷ rest)) p q,
)

queued-Balanced :
    (base : ℕ) (s : Session) (packet : Packet) (p : ActiveConnection × Result (Unit {0}) ℕ)
    → IsBalanced base s
    → p.1 ≡ ok tt
    → acl_queue p.0 ≡ acl_queue s.connection ++ (acl_data_of s.connection packet ∷ [])
    → IsQueue p.0
    → IsSending p.0
    → IsBalanced base (taken_after s packet p)
queued-Balanced base s packet (c, err e) b o items q i = cc
queued-Balanced base s packet (c, ok done) b o items q i = record {
  queue = q;
  sending = i;
  order =
      ap (λ (xs : List PendingData). xs ++ (acl_data_of s.connection packet ∷ [])) b.order
      ∙ append_assoc s.confirmed (acl_queue s.connection) (acl_data_of s.connection packet ∷ [])
      ∙ ap (λ (xs : List PendingData). s.confirmed ++ xs) (sym items);
  returned = b.returned;
}

submit-Balanced :
    (base : ℕ) (s : Session) (packet : Packet)
    → IsBalanced base s
    → IsBalanced base (taken_after s packet (queue_acl s.connection packet))
submit-Balanced base s packet b = elim (queue_acl_placed s.connection packet b.queue) [
  | inl (valid, inl (few, o, items, q, token)) ↦
      queued-Balanced base s packet (queue_acl s.connection packet) b o items q
        (queue_acl-IsSending s.connection packet b.sending)
  | inl (valid, inr (full, e)) ↦ kept hci_command_disallowed e
  | inr (invalid, e) ↦ kept (refusal packet) e
]
  where
    kept :
        (code : ℕ)
        → queue_acl s.connection packet ≡ (s.connection, err code)
        → IsBalanced base (taken_after s packet (queue_acl s.connection packet))
    kept code e =
        subst
          (λ (p : ActiveConnection × Result (Unit {0}) ℕ). IsBalanced base (taken_after s packet p))
          (sym e) b

-- The session after an event, with what is confirmed in it.
abbrev moved : Session → ActiveConnection → Host → List PendingData → Session
moved s c h xs = record s { connection = c; host = h; confirmed = s.confirmed ++ xs }

-- Nothing has moved, and nothing is confirmed.
unmoved :
    (base : ℕ) (s : Session) (c : ActiveConnection) (h : Host) (confirmed : List PendingData)
    → IsBalanced base s
    → confirmed ≡ []
    → c.pending ≡ s.connection.pending
    → c.queued_acl ≡ s.connection.queued_acl
    → credits h.sent ≡ credits s.host.sent
    → IsSending c
    → IsBalanced base (moved s c h confirmed)
unmoved base s c h confirmed b nothing p q r i =
    let l = IsQueue-same s.connection c p q b.queue in
    let same = ap (λ (xs : List PendingData). s.confirmed ++ xs) nothing ∙ append-nil s.confirmed in
    record {
      queue = l.0;
      sending = i;
      order = b.order ∙ ap₂ (λ (xs ys : List PendingData). xs ++ ys) (sym same) (sym l.1);
      returned = r ∙ b.returned ∙ ap (λ (xs : List PendingData). base + length xs) (sym same);
    }

-- The packet that was on its way, and those behind it.
popped_entries :
    (c : ActiveConnection) (e : ActiveConnection)
    → IsQueue c
    → is_some c.pending ≡ true
    → e.pending ≡ first_slot c.queued_acl
    → e.queued_acl ≡ shifted c.queued_acl
    → (d : PendingData) × (acl_queue c ≡ d ∷ acl_queue e) × IsQueue e × (c.pending ≡ some d)
popped_entries c e q some_pending p r = elim (Option-cases c.pending) [
  | inl none_pending ↦ absurd (ground (arith, none_pending, some_pending))
  | inr (d, at_front) ↦
      let l = shift_lem c.queued_acl (ground (arith, q.packed_slots, at_front)) in
      (
        d,
        ap (λ first. entries (first ∷ c.queued_acl)) at_front
            ∙ ap (λ (items : List PendingData). d ∷ items)
                (sym (ap₂ (λ first rest. entries (first ∷ rest)) p r ∙ l.0)),
        record {
          packed_slots = ap₂ (λ first rest. packed (first ∷ rest)) p r ∙ l.1;
          four = ap length r ∙ l.2 ∙ q.four;
        },
        at_front,
      )
]

-- What a release leaves of the balance.
Popped-Balanced :
    (t : TransmittedPdu) (base : ℕ) (s : Session) (c : ActiveConnection) (h : Host)
    → IsBalanced base s
    → s.connection.transmitted ≡ t
    → Popped t s.connection s.host c h
    → IsSending c
    → IsBalanced base (moved s c h (on_its_way t s.connection.pending))
Popped-Balanced acl base s c h b t (p, q, r) i =
    let l =
      popped_entries s.connection c b.queue
        (sym (ap (λ (u : TransmittedPdu). carries u s.connection.pending) t) ∙ b.sending.carrying) p
        q in
    subst (λ (o : Option PendingData). IsBalanced base (moved s c h (on_its_way acl o))) (sym l.3)
      (record {
        queue = l.2;
        sending = i;
        order =
            b.order
            ∙ ap (λ (xs : List PendingData). s.confirmed ++ xs) l.1
            ∙ sym (append_assoc s.confirmed (l.0 ∷ []) (acl_queue c));
        returned = omega (arith, r, b.returned, length-append {0} s.confirmed (l.0 ∷ []));
      })
Popped-Balanced control base s c h b t (p, q, r) i = unmoved base s c h [] b refl p q r i
Popped-Balanced empty base s c h b t (p, q, r) i = unmoved base s c h [] b refl p q r i
Popped-Balanced no_pdu base s c h b t (p, q, r) i = unmoved base s c h [] b refl p q r i

schedule-Balanced :
    (base : ℕ) (s : Session)
    → IsBalanced base s
    → IsBalanced base (record s { connection = schedule_following_event s.connection })
unfolding schedule_following_event
schedule-Balanced base s b = record {
  queue = record { packed_slots = b.queue.packed_slots; four = b.queue.four };
  sending = record { frame = b.sending.frame; carrying = b.sending.carrying };
  order = b.order;
  returned = b.returned;
}

-- An event that does not end the connection.
Goes-Balanced :
    (base : ℕ) (s : Session) (x : Option Exchange) (c : ActiveConnection) (h : Host)
    (excuse : Type 0)
    → IsBalanced base s
    → GoesUnless excuse (is_acknowledged s.connection x) s.connection s.host (c, h, none)
    → IsBalanced base (moved s c h (confirmed_by s.connection x))
Goes-Balanced base s x c h excuse b (moves, inr over) = cc
Goes-Balanced base s x c h excuse b (inl (w, inr (over, excused)), inl i) = cc
Goes-Balanced base s x c h excuse b (inl (w, inl kept), inl i) =
    unmoved base s c h (confirmed_by s.connection x) b
      (if_of_false (is_acknowledged s.connection x)
        (on_its_way s.connection.transmitted s.connection.pending) [] kept)
      w.halted.pending w.halted.queued_acl w.same_credits i
Goes-Balanced base s x c h excuse b (inr (r, acked), inl i) =
    subst (λ (xs : List PendingData). IsBalanced base (moved s c h xs))
      (sym (
        if_of_true (is_acknowledged s.connection x)
          (on_its_way s.connection.transmitted s.connection.pending) [] acked))
      (Popped-Balanced s.connection.transmitted base s c h b refl r.popped i)

held-Balanced :
    (base : ℕ) (s : Session) (x : Option Exchange) (clock : ℕ → ℕ) (result : Option Handled)
    → connection_event (λ call. x) clock s.connection s.host ≡ result
    → IsBalanced base s
    → Balanced base (held s x result)
held-Balanced base s x clock none e b = tt
held-Balanced base s x clock (some (c, h, some reason)) e b = tt
held-Balanced base s x clock (some (c, h, none)) e b =
    schedule-Balanced base (moved s c h (confirmed_by s.connection x)) (
      Goes-Balanced base s x c h
        (MayEnd s.connection (apply_and_tell s.connection (clock 0) s.host).2) b
        (connection_event_goes x clock s.connection c s.host h none b.sending e))

missed-Balanced :
    (base : ℕ) (s : Session) (p : ActiveConnection × Result Bool ℕ)
    → p.0.pending ≡ s.connection.pending
    → p.0.queued_acl ≡ s.connection.queued_acl
    → p.0.transmitted ≡ s.connection.transmitted
    → p.0.tx_frame ≡ s.connection.tx_frame
    → IsBalanced base s
    → Balanced base (missed s p)
missed-Balanced base s (c, err e) p q t f b = tt
missed-Balanced base s (c, ok changed) p q t f b =
    let l = IsQueue-same s.connection c p q b.queue in
    record {
      queue = l.0;
      sending = record {
        frame = ap no_frame f ∙ b.sending.frame ∙ sym (ap is_no_pdu t);
        carrying = ap₂ carries t p ∙ b.sending.carrying;
      };
      order = b.order ∙ ap (λ (xs : List PendingData). s.confirmed ++ xs) (sym l.1);
      returned = b.returned;
    }

pub perform-Balanced :
    (base : ℕ) (a : Action) (s : Session) → IsBalanced base s → Balanced base (perform a s)
perform-Balanced base (submit packet) s b = submit-Balanced base s packet b
perform-Balanced base (hold x clock) s b =
    held-Balanced base s x clock (connection_event (λ call. x) clock s.connection s.host) refl b
perform-Balanced base (miss now) s b =
    let same = skip_event-same s.connection now in
    missed-Balanced base s (skip_event s.connection now) same.0 same.1 same.2 same.3 b
