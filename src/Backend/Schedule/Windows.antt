-- ===== src/Backend/Schedule/Windows.antt =====
-- The receive window round an anchor.
use ch58x_hal.Base.{ℕ, ◌+◌, ◌-◌, ◌*◌, ◌^◌, ◌≤◌, ◌<◌, ◌≡◌}
use ch58x_hal.Base.{arith, some}
use native.Mathlib.Nat.{mul-le-mul, le_refl}
use ch58x_hal.LinkLayer.Timing.{sleep_clock_accuracy_ppm}
use ch58x_hal.LinkLayer.Timing.Drift.{window_widening_us_ceiling, accuracy-le}
use ch58x_hal.Backend.Connection.{
  ActiveConnection, local_sleep_clock_ppm, max_data_packet_airtime_us, rx_setup_lead_us,
}
use ch58x_hal.Backend.Schedule.{
  window_widening_us, receive_open, receive_close, take_receive_timeout, instant_window_us,
}

-- The time since the last packet, and how far two clocks may be apart after it, in millionths.
abbrev pub elapsed : ActiveConnection → ℕ
elapsed c = c.next_anchor - c.last_sync_anchor

abbrev pub drift : ActiveConnection → ℕ
drift c =
    elapsed c * (sleep_clock_accuracy_ppm c.request.sleep_clock_accuracy + local_sleep_clock_ppm)

module _ (c : ActiveConnection) (small : c.next_anchor < 2 ^ 63) where
  widening :
      (drift c ≤ window_widening_us c * 1_000_000)
      × (window_widening_us c * 1_000_000 < drift c + 1_000_000)
  unfolding window_widening_us
  widening =
      window_widening_us_ceiling (elapsed c) c.request.sleep_clock_accuracy local_sleep_clock_ppm
        (omega arith) (omega arith)

  drift-le : drift c ≤ elapsed c * 550
  drift-le =
      mul-le-mul (le_refl (elapsed c)) (omega (arith, accuracy-le c.request.sleep_clock_accuracy))

  -- The window opens a setup lead and the widening before the anchor.
  opens :
      1_003 ≤ c.next_anchor → receive_open c ≡ some (c.next_anchor - (1_000 + window_widening_us c))
  unfolding receive_open
  opens late = ground (arith, widening, drift-le)

  closes :
      c.receive_window_size_us ≤ 10_000
      → instant_window_us c.pending_connection_update c ≡ c.receive_window_size_us
      → (receive_close c
          ≡ c.next_anchor
            + window_widening_us c
            + c.receive_window_size_us
            + max_data_packet_airtime_us)
        × ((take_receive_timeout c).1
            ≡ 1_000
              + window_widening_us c * 2
              + c.receive_window_size_us
              + max_data_packet_airtime_us)
  unfolding receive_close take_receive_timeout
  closes window same = (ground (arith, widening, drift-le), ground (arith, widening, drift-le))

-- A packet that starts in the transmit window, early or late by at most the drift of both clocks
-- since the last packet, is received: the window opens at least a setup lead before it, and the
-- longest packet that starts there ends before the deadline and before the timeout.
pub receive_window_covers :
    (c : ActiveConnection) (start deviation : ℕ)
    → c.next_anchor < 2 ^ 63
    → 1_003 ≤ c.next_anchor
    → c.receive_window_size_us ≤ 10_000
    → instant_window_us c.pending_connection_update c ≡ c.receive_window_size_us
    → deviation * 1_000_000 ≤ drift c
    → c.next_anchor ≤ start + deviation
    → start ≤ c.next_anchor + c.receive_window_size_us + deviation
    → (open_us : ℕ) × (receive_open c ≡ some open_us)
      × (open_us + rx_setup_lead_us ≤ start)
      × (start + max_data_packet_airtime_us ≤ receive_close c)
      × (start + max_data_packet_airtime_us ≤ open_us + (take_receive_timeout c).1)
receive_window_covers c start deviation small late window same drifted early tardy =
    let o = opens c small late in
    let cl = closes c small window same in
    let w = widening c small in
    let d = drift-le c small in
    (
      c.next_anchor - (1_000 + window_widening_us c),
      o,
      omega (arith, w, d),
      omega (arith, w, cl.0),
      omega (arith, w, d, cl.1),
    )
