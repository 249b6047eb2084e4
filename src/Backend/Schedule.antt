-- ===== src/Backend/Schedule.antt =====
-- Anchors, receive windows and instants of a connection:
-- crates/ch58x-ble/src/link_layer.rs. A reading of the clock is an argument.
pub mod Skipping
pub mod Ending
pub mod Update
pub mod Windows
use ch58x_hal.Base.{
  ℕ, zero, suc, ◌+◌, ◌-◌, ◌*◌, ◌%◌, ◌^◌, Bool, true, false, not, ◌&&◌, ◌||◌, Option, none, some,
}
use ch58x_hal.Base.{ltb, ◌==◌, ◌!=◌, if◌then◌else◌, u16, saturate, is_some, List, Result, ok, err}
use ch58x_hal.LinkLayer.Timing
use ch58x_hal.LinkLayer.ControlPdu.{ConnectionUpdateInd, ChannelMapInd}
use ch58x_hal.LinkLayer.ChannelSelection.{ChannelSelection1, update_map}
use ch58x_hal.LinkLayer.ChannelSelection
use ch58x_hal.Llcp.Timers.{on_connection_event}
use ch58x_hal.Radio.{Error, Channel}
use ch58x_hal.Backend.Connection.{
  ActiveConnection, local_sleep_clock_ppm, rx_setup_lead_us, max_data_packet_airtime_us,
}

abbrev pub interval : ActiveConnection → ℕ
interval c = c.request.interval * 1_250

unfoldable pub next_channel : ActiveConnection → ActiveConnection × Result Channel Error
next_channel c =
    let (channels, channel) = ChannelSelection.next_channel c.channels in
    (record c { channels = channels }, channel)

-- `saturating_duration_since` is the truncated subtraction.
unfoldable pub window_widening_us : ActiveConnection → ℕ
unfolding Timing.window_widening_us
window_widening_us c =
    Timing.window_widening_us (c.next_anchor - c.last_sync_anchor) c.request.sleep_clock_accuracy
      local_sleep_clock_ppm

-- An instant before the start of the clock stops the program: `none`.
unfoldable pub receive_open : ActiveConnection → Option ℕ
unfolding window_widening_us
receive_open c =
    let early = rx_setup_lead_us + window_widening_us c in
    if ltb c.next_anchor early then none else some (c.next_anchor - early)

unfoldable pub take_receive_timeout : ActiveConnection → ActiveConnection × ℕ
unfolding window_widening_us
take_receive_timeout c =
    let widened = saturate (rx_setup_lead_us + saturate (window_widening_us c * 2)) in
    (
      record c { receive_window_size_us = 0 },
      saturate (saturate (widened + c.receive_window_size_us) + max_data_packet_airtime_us),
    )

-- The window of an update at its instant, or that of the connection.
abbrev pub instant_window_us : Option ConnectionUpdateInd → ActiveConnection → ℕ
instant_window_us none c = c.receive_window_size_us
instant_window_us (some update) c =
    if update.instant == c.event_counter
    then update.window_size * 1_250
    else c.receive_window_size_us

unfoldable pub receive_close : ActiveConnection → ℕ
unfolding window_widening_us
receive_close c =
    c.next_anchor
    + saturate (
        saturate (window_widening_us c + instant_window_us c.pending_connection_update c)
        + max_data_packet_airtime_us)

unfoldable pub synchronize : ActiveConnection → ℕ → ActiveConnection
synchronize c anchor_us = record c {
  next_anchor = anchor_us;
  last_sync_anchor = anchor_us;
  receive_window_size_us = 0;
}

-- The offset of the new transmit window, if the update is at its instant.
abbrev pub window_shift : Option ConnectionUpdateInd → ℕ → ℕ
window_shift none event_counter = 0
window_shift (some update) event_counter =
    if update.instant == event_counter then update.window_offset * 1_250 else 0

unfoldable pub schedule_following_event : ActiveConnection → ActiveConnection
schedule_following_event c =
    let event_counter = u16 (c.event_counter + 1) in
    record c {
      event_counter = event_counter;
      next_anchor =
          c.next_anchor + interval c + window_shift c.pending_connection_update event_counter;
    }

-- The first `if let` of `apply_instants`.
abbrev pub map_taken :
    ActiveConnection
    → ChannelMapInd
    → ChannelSelection1 × Result (Unit {0}) Error
    → ActiveConnection × Result (Unit {0}) ℕ
map_taken c update (channels, ok done) = (
  record c {
    channels = channels;
    request = record c.request { channel_map = update.map };
    pending_channel_map = none;
  },
  ok tt,
)
map_taken c update (channels, err e) = (record c { channels = channels }, err 0x1e)

unfoldable pub apply_channel_map :
    Option ChannelMapInd → ActiveConnection → ActiveConnection × Result (Unit {0}) ℕ
unfolding update_map
apply_channel_map none c = (c, ok tt)
apply_channel_map (some update) c =
    if update.instant == c.event_counter
    then map_taken c update (update_map c.channels update.map)
    else (c, ok tt)

-- The second `if let` of `apply_instants`: whether an update is applied, and whether it changes what
-- the host is told.
unfoldable pub apply_connection_update :
    Option ConnectionUpdateInd → ActiveConnection → ℕ → ActiveConnection × (Bool × Bool)
apply_connection_update none c now = (c, (false, false))
apply_connection_update (some update) c now =
    if update.instant == c.event_counter
    then (
      record c {
        request = record c.request {
          window_size = update.window_size;
          window_offset = update.window_offset;
          interval = update.interval;
          latency = update.latency;
          supervision_timeout = update.supervision_timeout;
        };
        receive_window_size_us = update.window_size * 1_250;
        supervision_deadline = now + update.supervision_timeout * 10_000;
        pending_connection_update = none;
      },
      (
        true,
        c.request.interval != update.interval
            || (c.request.latency != update.latency
                || c.request.supervision_timeout != update.supervision_timeout),
      ),
    )
    else (c, (false, false))

abbrev pub apply_rest :
    ActiveConnection × Result (Unit {0}) ℕ → ℕ → ActiveConnection × Result (Bool × Bool) ℕ
apply_rest (c, err e) now = (c, err e)
apply_rest (c, ok done) now =
    let (d, flags) = apply_connection_update c.pending_connection_update c now in
    (record d { procedures = on_connection_event d.procedures d.event_counter 0x28 }, ok flags)

unfoldable pub apply_instants : ActiveConnection → ℕ → ActiveConnection × Result (Bool × Bool) ℕ
unfolding apply_channel_map apply_connection_update on_connection_event
apply_instants c now = apply_rest (apply_channel_map c.pending_channel_map c) now

-- What `skip_expired_events` and `connection_event` do with the flags.
abbrev pub notifies : ActiveConnection → Bool → Bool → Bool
notifies c applied changed = changed || (applied && is_some c.local_connection_param_request)

abbrev pub forget_request : ActiveConnection → Bool → ActiveConnection
forget_request c true = record c { local_connection_param_request = none }
forget_request c false = c

-- What follows `apply_instants()?` in a round of `skip_expired_events`.
abbrev pub after_instants :
    ActiveConnection × Result (Bool × Bool) ℕ → ActiveConnection × Result Bool ℕ
after_instants (d, err e) = (d, err e)
after_instants (d, ok (applied, changed)) = (
  schedule_following_event (next_channel (forget_request d applied)).0,
  ok (notifies d applied changed),
)

-- One round of the loop, after its test and up to the count. The channel is of no use here and is
-- dropped, and with it the panic of a selector that has no channel, which `ChannelSelection.new` and
-- the test of every new map exclude.
unfoldable pub skip_event : ActiveConnection → ℕ → ActiveConnection × Result Bool ℕ
unfolding apply_instants next_channel schedule_following_event
skip_event c now = after_instants (apply_instants c now)

abbrev pub Skipped : Type 0
Skipped = ActiveConnection × Result (ℕ × Bool) ℕ

-- The rest of a round: the count with its test, and the next rounds.
abbrev pub count_round :
    (ℕ → Bool → ActiveConnection → Option Skipped)
    → ℕ
    → Bool
    → ActiveConnection × Result Bool ℕ
    → Option Skipped
count_round rounds count notify_host (d, err e) = some (d, err e)
count_round rounds count notify_host (d, ok changed) =
    if ltb (count + 1) (2 ^ 16)
    then rounds (count + 1) (notify_host || changed) d
    else some (d, err 0x08)

-- The loop from the `count`th round on; round `k` reads the clock as `clock k`, and `none` says that
-- the fuel ran out.
unfoldable pub skip_rounds : ℕ → ℕ → (ℕ → ℕ) → ℕ → Bool → ActiveConnection → Option Skipped
unfolding receive_close skip_event
skip_rounds zero now clock count notify_host c = none
skip_rounds (suc fuel) now clock count notify_host c =
    let more =
      count_round (skip_rounds fuel now clock) count notify_host (skip_event c (clock count)) in
    if ltb (receive_close c) now then more else some (c, ok (count, notify_host))

-- `count` is a 16-bit number, so that 2 ^ 16 rounds are enough.
unfoldable pub skip_expired_events : ActiveConnection → ℕ → (ℕ → ℕ) → Option Skipped
skip_expired_events c now clock = skip_rounds (2 ^ 16) now clock 0 false c
