-- ===== src/Examples/Backend/Instants.antt =====
-- Instants, missed events and receive windows on concrete values.
use ch58x_hal.Base.{ℕ, ◌+◌, ◌*◌, ◌≤◌, ◌≡◌, refl, arith, Bool, some, none, ok}
use ch58x_hal.LinkLayer.ControlPdu.{ConnectionUpdateInd}
use ch58x_hal.LinkLayer.Timing.{sleep_clock_accuracy_ppm}
use ch58x_hal.Backend.Connection.{ActiveConnection, rx_setup_lead_us, max_data_packet_airtime_us}
use ch58x_hal.Backend.Schedule.{
  receive_open, receive_close, take_receive_timeout, skip_expired_events,
}
use ch58x_hal.Backend.Schedule.Skipping.{IsScheduled, Advanced, skip_expired_events_ends}
use ch58x_hal.Backend.Schedule.Update.{Awaits, HasTiming, events, update_takes_effect}
use ch58x_hal.Backend.Schedule.Windows.{receive_window_covers}
use ch58x_hal.Examples.Backend.Values.{connection}

connection-IsScheduled : IsScheduled connection
connection-IsScheduled = record {
  interval = omega arith;
  update = refl;
  map = refl;
  phase = omega arith;
}

abbrev clock : ℕ → ℕ
clock k = 400_000 + k

skip_expired_events_ends_example :
    (d : ActiveConnection) × (n : ℕ) × (notify : Bool) × (skip_expired_events connection 400_000
        clock
      ≡ some (d, ok (n, notify)))
    × Advanced connection d n
    × IsScheduled d
    × (400_000 ≤ receive_close d)
skip_expired_events_ends_example =
    skip_expired_events_ends connection 400_000 clock connection-IsScheduled (omega arith)
      (omega arith)

abbrev update : ConnectionUpdateInd
update = record {
  window_size = 1;
  window_offset = 2;
  interval = 40;
  latency = 1;
  supervision_timeout = 400;
  instant = 1;
}

-- The instant stands behind the wrap of the counter.
abbrev waiting : ActiveConnection
waiting = record connection { event_counter = 65_534; pending_connection_update = some update }

waiting-Awaits : Awaits waiting update 3
waiting-Awaits = record {
  pending = refl;
  instant = refl;
  counter = omega arith;
  scheduled = record { interval = omega arith; update = refl; map = refl; phase = omega arith };
}

update_takes_effect_example :
    ((n : ℕ)
      → n ≤ 2
      → HasTiming (events n clock waiting) 24 0 300
        × ((events n clock waiting).next_anchor ≡ 55_000 + n * (24 * 1_250) + 0))
    × (let d = events 3 clock waiting in
        let e = events 4 clock waiting in
        (HasTiming d 24 0 300 × (d.next_anchor ≡ 55_000 + 3 * (24 * 1_250) + 2 * 1_250))
        × HasTiming e 40 1 400
        × (e.pending_connection_update ≡ none)
        × (e.next_anchor ≡ d.next_anchor + 40 * 1_250))
update_takes_effect_example =
    update_takes_effect update 24 0 300 2 clock waiting waiting-Awaits (omega arith)
      (record { interval_is = refl; latency_is = refl; timeout_is = refl })

-- The last packet was received 55 milliseconds before the anchor.
abbrev drifted : ActiveConnection
drifted = record connection { last_sync_anchor = 0 }

receive_window_covers_example :
    (open_us : ℕ) × (receive_open drifted ≡ some open_us)
    × (open_us + rx_setup_lead_us ≤ 54_995)
    × (54_995 + max_data_packet_airtime_us ≤ receive_close drifted)
    × (54_995 + max_data_packet_airtime_us ≤ open_us + (take_receive_timeout drifted).1)
unfolding sleep_clock_accuracy_ppm
receive_window_covers_example =
    receive_window_covers drifted 54_995 5 (omega arith) (omega arith) (omega arith) refl
      (omega arith) (omega arith) (omega arith)
