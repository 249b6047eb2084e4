-- ===== src/Backend/Acl/Session.antt =====
-- Sequences of what happens to a connection: the host's packets, events, and missed events.
use ch58x_hal.Base.{ℕ, ◌+◌, ◌≡◌}
use ch58x_hal.Base.{
  Bool, Option, none, some, List, [], ◌∷◌, ◌++◌, length, Result, ok, err, if◌then◌else◌,
}
use ch58x_hal.Backend.Transport.{Packet, Host}
use ch58x_hal.Backend.Connection.{ActiveConnection, PendingData, TransmittedPdu, acl}
use ch58x_hal.Backend.Schedule.{skip_event, schedule_following_event}
use ch58x_hal.Backend.Queue.{acl_data_of, queue_acl}
use ch58x_hal.Backend.Received.{Handled}
use ch58x_hal.Backend.Event.{Exchange, connection_event}
use ch58x_hal.Backend.Acl.Heard.{is_acknowledged}
use ch58x_hal.Backend.Acl.Queueing.{acl_queue, IsQueue}
use ch58x_hal.Backend.Acl.Untouched.{credits}
use ch58x_hal.Backend.Acl.Staging.{IsSending}

-- What happens to a connection: a packet of the host, an event in which the radio gives an exchange or
-- fails, with the readings of the clock, or an event that is missed.
pub data Action : Type 0 where
  submit : Packet → Action
  hold : Option Exchange → (ℕ → ℕ) → Action
  miss : ℕ → Action

-- With the packets of the host that were taken, and those that the peer has confirmed by what it sent,
-- both in order.
pub record Session : Type 0 where
  pub connection : ActiveConnection
  pub host : Host
  pub taken : List PendingData
  pub confirmed : List PendingData

abbrev pub taken_after : Session → Packet → ActiveConnection × Result (Unit {0}) ℕ → Session
taken_after s packet (c, ok done) = record s {
  connection = c;
  taken = s.taken ++ (acl_data_of s.connection packet ∷ []);
}
taken_after s packet (c, err e) = record s { connection = c }

-- The ACL packet that is on its way.
abbrev pub on_its_way : TransmittedPdu → Option PendingData → List PendingData
on_its_way acl (some d) = d ∷ []
on_its_way acl none = []
on_its_way _ pending = []

-- The packet that the peer acknowledges in an event that gives `x`, if it does and there is one.
abbrev pub confirmed_by : ActiveConnection → Option Exchange → List PendingData
confirmed_by c x = if is_acknowledged c x then on_its_way c.transmitted c.pending else []

abbrev pub held : Session → Option Exchange → Option Handled → Option Session
held s x (some (c, h, none)) = some (record s {
  connection = schedule_following_event c;
  host = h;
  confirmed = s.confirmed ++ confirmed_by s.connection x;
})
held s x (some (c, h, some reason)) = none
held s x none = none

abbrev pub missed : Session → ActiveConnection × Result Bool ℕ → Option Session
missed s (c, ok changed) = some (record s { connection = c })
missed s (c, err e) = none

-- `none` is the end of the connection.
abbrev pub perform : Action → Session → Option Session
perform (submit packet) s = some (taken_after s packet (queue_acl s.connection packet))
perform (hold x clock) s = held s x (connection_event (λ call. x) clock s.connection s.host)
perform (miss now) s = missed s (skip_event s.connection now)

abbrev pub and_then : Option Session → (Session → Option Session) → Option Session
and_then none f = none
and_then (some s) f = f s

abbrev pub perform_all : List Action → Session → Option Session
perform_all [] s = some s
perform_all (a ∷ actions) s = and_then (perform a s) (perform_all actions)

-- The packets that were taken are those that were confirmed and those that wait, in order, and each
-- confirmed one has returned a credit.
pub record IsBalanced (base : ℕ) (s : Session) : Type 0 where
  pub queue : IsQueue s.connection
  pub sending : IsSending s.connection
  pub order : s.taken ≡ s.confirmed ++ acl_queue s.connection
  pub returned : credits s.host.sent ≡ base + length s.confirmed

abbrev pub Balanced : ℕ → Option Session → Type 0
Balanced base none = Unit {0}
Balanced base (some s) = IsBalanced base s
