-- ===== src/Backend/Schedule/Update.antt =====
-- A connection update that waits for its instant, over events that bring nothing new.
use ch58x_hal.Base.{ℕ, zero, suc, ◌+◌, ◌*◌, ◌%◌, ◌^◌, ◌≤◌, ◌<◌, ◌≡◌, refl}
use ch58x_hal.Base.{arith, none, some}
use native.Mathlib.Nat.{suc-mul}
use ch58x_hal.LinkLayer.ControlPdu.{ConnectionUpdateInd}
use ch58x_hal.LinkLayer.ChannelSelection.{update_map}
use ch58x_hal.LinkLayer.ChannelSelection
use ch58x_hal.Backend.Connection.{ActiveConnection}
use ch58x_hal.Backend.Schedule.{
  apply_channel_map, apply_connection_update, apply_instants, schedule_following_event,
  next_channel, skip_event,
}
use ch58x_hal.Backend.Schedule.Skipping.{IsScheduled, skip_event-IsScheduled}

-- The update's instant lies `distance` events ahead.
pub record Awaits (c : ActiveConnection) (u : ConnectionUpdateInd) (distance : ℕ) : Type 0 where
  pub pending : c.pending_connection_update ≡ some u
  pub instant : u.instant ≡ (c.event_counter + distance) % 2 ^ 16
  pub counter : c.event_counter < 2 ^ 16
  pub scheduled : IsScheduled c

-- The timing in force.
pub record HasTiming (c : ActiveConnection) (interval latency timeout : ℕ) : Type 0 where
  pub interval_is : c.request.interval ≡ interval
  pub latency_is : c.request.latency ≡ latency
  pub timeout_is : c.request.supervision_timeout ≡ timeout

-- `n` events, of which the radio does not take any; event `k` reads the clock as `clock k`.
abbrev pub events : ℕ → (ℕ → ℕ) → ActiveConnection → ActiveConnection
events zero clock c = c
events (suc n) clock c = events n (λ k. clock (suc k)) (skip_event c (clock 0)).0

module _ (c : ActiveConnection) (u : ConnectionUpdateInd) (now : ℕ) (i l t : ℕ) where
  before_instant :
      (k : ℕ)
      → Awaits c u (suc k)
      → suc k < 2 ^ 16
      → HasTiming c i l t
      → (let d = (skip_event c now).0 in
          HasTiming d i l t
          × (d.pending_connection_update ≡ some u)
          × (d.event_counter ≡ (c.event_counter + 1) % 2 ^ 16)
          × (1 ≤ k → d.next_anchor ≡ c.next_anchor + i * 1_250)
          × (k ≡ 0 → d.next_anchor ≡ c.next_anchor + i * 1_250 + u.window_offset * 1_250))
  unfolding skip_event apply_instants apply_channel_map apply_connection_update
      schedule_following_event next_channel update_map ChannelSelection.next_channel
  before_instant k a lt h = ground (arith, a.pending, a.instant, a.scheduled.map)

  at_instant :
      Awaits c u 0
      → (let d = (skip_event c now).0 in
          HasTiming d u.interval u.latency u.supervision_timeout
          × (d.pending_connection_update ≡ none)
          × (d.next_anchor ≡ c.next_anchor + u.interval * 1_250))
  unfolding skip_event apply_instants apply_channel_map apply_connection_update
      schedule_following_event next_channel update_map ChannelSelection.next_channel
  at_instant a = ground (arith, a.pending, a.instant, a.counter, a.scheduled.map)

module _ (u : ConnectionUpdateInd) (i l t : ℕ) where
  next-Awaits :
      (k : ℕ) (c : ActiveConnection) (now : ℕ)
      → Awaits c u (suc k)
      → suc k < 2 ^ 16
      → HasTiming c i l t
      → Awaits (skip_event c now).0 u k
  next-Awaits k c now a lt h =
      let b = before_instant c u now i l t k a lt h in
      record {
        pending = b.1;
        instant = omega (arith, a.instant, a.counter, b.2);
        counter = omega (arith, b.2);
        scheduled = skip_event-IsScheduled c now a.scheduled;
      }

  -- The old timing, and the anchor after `n` of its intervals and `shift` microseconds.
  abbrev Timed : ActiveConnection → ActiveConnection → ℕ → ℕ → Type 0
  Timed c d n shift = HasTiming d i l t × (d.next_anchor ≡ c.next_anchor + n * (i * 1_250) + shift)

  stays :
      (n k : ℕ) (clock : ℕ → ℕ) (c : ActiveConnection)
      → Awaits c u (suc k)
      → suc k < 2 ^ 16
      → HasTiming c i l t
      → n ≤ k
      → Timed c (events n clock c) n 0
  stays zero k clock c a lt h le = (h, omega arith)
  stays (suc n) zero clock c a lt h le = absurd (omega arith)
  stays (suc n) (suc k) clock c a lt h le =
      let b = before_instant c u (clock 0) i l t (suc k) a lt h in
      let r =
        stays n k (λ j. clock (suc j)) (skip_event c (clock 0)).0
          (next-Awaits (suc k) c (clock 0) a lt h) (omega arith) b.0 (omega arith) in
      (r.0, omega (arith, r.1, b.3 (omega arith), suc-mul n (i * 1_250)))

  -- At the instant the window has moved, and after it the update is in force.
  abbrev Applied : (ℕ → ℕ) → ℕ → ActiveConnection → Type 0
  Applied clock k c =
      let d = events (suc k) clock c in
      let e = events (suc (suc k)) clock c in
      Timed c d (suc k) (u.window_offset * 1_250)
      × HasTiming e u.interval u.latency u.supervision_timeout
      × (e.pending_connection_update ≡ none)
      × (e.next_anchor ≡ d.next_anchor + u.interval * 1_250)

  applied :
      (k : ℕ) (clock : ℕ → ℕ) (c : ActiveConnection)
      → Awaits c u (suc k)
      → suc k < 2 ^ 16
      → HasTiming c i l t
      → Applied clock k c
  applied zero clock c a lt h =
      let b = before_instant c u (clock 0) i l t zero a lt h in
      let d = (skip_event c (clock 0)).0 in
      let r = at_instant d u (clock 1) i l t (next-Awaits zero c (clock 0) a lt h) in
      ((b.0, omega (arith, b.4 refl)), r.0, r.1, r.2)
  applied (suc k) clock c a lt h =
      let b = before_instant c u (clock 0) i l t (suc k) a lt h in
      let r =
        applied k (λ j. clock (suc j)) (skip_event c (clock 0)).0
          (next-Awaits (suc k) c (clock 0) a lt h) (omega arith) b.0 in
      ((r.0.0, omega (arith, r.0.1, b.3 (omega arith), suc-mul (suc k) (i * 1_250))), r.1, r.2, r.3)

-- A connection update whose instant lies k + 1 events ahead, over the wrap of the counter as well, when
-- the events are missed, at whatever times: for k events the timing is the old one and each anchor
-- stands one old interval after the last; the anchor of the instant stands one old interval and the
-- update's window offset after that; from the instant on the update's interval, latency and
-- supervision timeout are in force, the next anchor stands one new interval later, and nothing is
-- pending. An event in which the radio hears the peer moves the anchor by itself and is not among them.
pub update_takes_effect :
    (u : ConnectionUpdateInd) (i l t k : ℕ) (clock : ℕ → ℕ) (c : ActiveConnection)
    → Awaits c u (suc k)
    → suc k < 2 ^ 16
    → HasTiming c i l t
    → ((n : ℕ)
        → n ≤ k
        → HasTiming (events n clock c) i l t
          × ((events n clock c).next_anchor ≡ c.next_anchor + n * (i * 1_250) + 0))
      × (let d = events (suc k) clock c in
          let e = events (suc (suc k)) clock c in
          (HasTiming d i l t
            × (d.next_anchor ≡ c.next_anchor + suc k * (i * 1_250) + u.window_offset * 1_250))
          × HasTiming e u.interval u.latency u.supervision_timeout
          × (e.pending_connection_update ≡ none)
          × (e.next_anchor ≡ d.next_anchor + u.interval * 1_250))
update_takes_effect u i l t k clock c a lt h =
    ((λ n le. stays u i l t n k clock c a lt h le), applied u i l t k clock c a lt h)
