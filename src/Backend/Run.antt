-- ===== src/Backend/Run.antt =====
-- The life of a connection: `run_connection` of crates/ch58x-ble/src/link_layer.rs, and what
-- `advertising_event` does before and after it. A turn of the loop takes what it meets as an
-- argument: the packets that wait, the readings of the clock, what ends the wait, and the radio.
pub mod Telling
use ch58x_hal.Base.{ℕ, suc, ◌+◌, Bool, true, false, ◌&&◌, Option, none, some, List, [], ◌∷◌}
use ch58x_hal.Base.{leb, ◌==◌, ◌!=◌, if◌then◌else◌, Result, ok, err}
use ch58x_hal.LinkLayer.AccessAddress.{adv_access_address}
use ch58x_hal.Llcp.Timers.{check_timeouts}
use ch58x_hal.Backend.Transport.{Packet, PacketKind, cmd, acl_data, Host}
use ch58x_hal.Backend.Connection.{ActiveConnection}
use ch58x_hal.Backend.Schedule.{
  Skipped, skip_expired_events, receive_open, schedule_following_event,
}
use ch58x_hal.Backend.Queue.{queue_acl}
use ch58x_hal.Backend.Control.{with_procedures}
use ch58x_hal.Backend.Emit.{
  emit_connection_complete, emit_disconnection, emit_connection_update_complete,
}
use ch58x_hal.Backend.Received.{Handled}
use ch58x_hal.Backend.Event.{Radio, connection_event}
use ch58x_hal.Backend.Commands.{Runner, adv_crc_init}
use ch58x_hal.Backend.Connected.{Outcome, handle_connected_command}

pub data Wake : Type 0 where
  host_packet : Packet → Wake
  timer : Wake

-- What a turn of the loop meets, in the order of the code. `now` is the first reading of the clock,
-- `timer_now` the one after the timer; the loops of `skip_expired_events` and the event read it more often.
pub record Turn : Type 0 where
  pub waiting : List Packet
  pub now : ℕ
  pub clock : ℕ → ℕ
  pub wake : Wake
  pub timer_now : ℕ
  pub timer_clock : ℕ → ℕ
  pub radio : Radio
  pub event_clock : ℕ → ℕ

-- Everything that the loop changes.
pub record Link (Random : Type 0) : Type 0 where
  pub runner : Runner Random
  pub connection : ActiveConnection
  pub host : Host

-- The link after a part of a turn, and whether the loop starts over, goes on, ends with a reason or
-- stops with a panic; then the link is that before the step that panics.
pub data Next : Type 0 where
  go_on start_over panicked : Next
  disconnected : ℕ → Next

module _ {Random : Type 0} (fill_bytes : Random → Random × List ℕ) where
  abbrev link_of : Runner Random × ActiveConnection × Host × Bool → Link Random × Bool
  link_of (r, c, h, stop) = (record { runner = r; connection = c; host = h }, stop)

  abbrev pub by_kind : PacketKind → Packet → Link Random → Link Random × Bool
  by_kind acl_data packet l = (record l { connection = (queue_acl l.connection packet).0 }, false)
  by_kind cmd packet l =
      link_of (handle_connected_command fill_bytes packet.bytes l.runner l.connection l.host)
  by_kind _ packet l = (l, false)

  unfoldable pub process_connected_host_packet : Packet → Link Random → Link Random × Bool
  unfolding queue_acl handle_connected_command
  process_connected_host_packet packet l = by_kind packet.kind packet l

  abbrev pub Progress : Type 0
  Progress = Option (Link Random × Next)

  -- The host is told why the connection ends.
  abbrev pub ended : Link Random → ℕ → Link Random × Next
  ended l reason =
      (record l { host = emit_disconnection l.connection reason l.host }, disconnected reason)

  -- What both uses of `process_connected_host_packet` do with its result.
  abbrev pub processed : Link Random × Bool → Link Random × Next
  processed (l, true) = ended l 0x16
  processed (l, false) = (l, go_on)

  -- The `while let` at the start of a turn.
  unfoldable pub drain : List Packet → Link Random → Link Random × Next
  unfolding process_connected_host_packet emit_disconnection
  drain [] l = (l, go_on)
  drain (packet ∷ packets) l =
      let rest = drain packets (process_connected_host_packet packet l).0 in
      if (process_connected_host_packet packet l).1
      then ended (process_connected_host_packet packet l).0 0x16
      else rest

  -- The two deadlines that end a connection.
  unfoldable pub check_deadlines : ℕ → Link Random → Link Random × Next
  unfolding check_timeouts emit_disconnection
  check_deadlines now l =
      let checked = check_timeouts l.connection.procedures now 0x22 in
      let m = record l { connection = with_procedures l.connection checked.0 } in
      if checked.1
      then ended m 0x22
      else if leb m.connection.supervision_deadline now
      then ended m 0x08
      else (m, go_on)

  abbrev pub after_skip : Link Random → Option Skipped → Progress
  after_skip l none = none
  after_skip l (some (c, err reason)) = some (ended (record l { connection = c }) 0x08)
  after_skip l (some (c, ok (count, notify))) = some (
    record l {
      connection = c;
      host = if notify then emit_connection_update_complete c l.host else l.host;
    },
    if count == 0 then go_on else start_over,
  )

  -- Both uses of `skip_expired_events`; `none` would be a lack of fuel.
  unfoldable pub skip_and_tell : ℕ → (ℕ → ℕ) → Link Random → Progress
  unfolding skip_expired_events emit_disconnection emit_connection_update_complete
  skip_and_tell now clock l = after_skip l (skip_expired_events l.connection now clock)

  abbrev pub after_event : Link Random → Option Handled → Progress
  after_event l none = some (l, panicked)
  after_event l (some (c, h, some reason)) =
      some (ended (record l { connection = c; host = h }) reason)
  after_event l (some (c, h, none)) =
      some (record l { connection = schedule_following_event c; host = h }, go_on)

  unfoldable pub admitted_event : Turn → Link Random → Progress
  unfolding connection_event emit_disconnection schedule_following_event
  admitted_event t l = after_event l (connection_event t.radio t.event_clock l.connection l.host)

  -- The rest of a turn, unless a part of it has started over or ended.
  abbrev pub then_do : Progress → (Link Random → Progress) → Progress
  then_do none f = none
  then_do (some (l, go_on)) f = f l
  then_do (some (l, start_over)) f = some (l, start_over)
  then_do (some (l, panicked)) f = some (l, panicked)
  then_do (some (l, disconnected reason)) f = some (l, disconnected reason)

  abbrev pub woken : Wake → Turn → Link Random → Progress
  woken (host_packet packet) t l = some (processed (process_connected_host_packet packet l))
  woken timer t l = then_do (skip_and_tell t.timer_now t.timer_clock l) (admitted_event t)

  -- The wait for the host or for `scheduler_open`, which is `receive_open`.
  abbrev pub awaited : Option ℕ → Turn → Link Random → Progress
  awaited none t l = some (l, panicked)
  awaited (some open_us) t l = woken t.wake t l

  unfoldable pub turn : Turn → Link Random → Progress
  unfolding drain check_deadlines skip_and_tell admitted_event process_connected_host_packet
  turn t l = then_do (some (drain t.waiting l)) λ l.
      then_do (some (check_deadlines t.now l))
        λ l. then_do (skip_and_tell t.now t.clock l) λ l. awaited (receive_open l.connection) t l

  abbrev pub next_turn : (Link Random → Progress) → Progress → Progress
  next_turn rest none = none
  next_turn rest (some (l, disconnected reason)) = some (l, disconnected reason)
  next_turn rest (some (l, panicked)) = some (l, panicked)
  next_turn rest (some (l, go_on)) = rest l
  next_turn rest (some (l, start_over)) = rest l

  -- The loop over the turns that are given.
  unfoldable pub run_connection : List Turn → Link Random → Progress
  unfolding turn
  run_connection [] l = some (l, go_on)
  run_connection (t ∷ ts) l = next_turn (run_connection ts) (turn t l)
