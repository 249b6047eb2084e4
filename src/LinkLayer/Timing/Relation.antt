-- ===== src/LinkLayer/Timing/Relation.antt =====
-- What `classify_instant` says of the distance to an instant, across the wrap of the counter.
use ch58x_hal.Base.{ℕ, ◌+◌, ◌%◌, ◌^◌, ◌≤◌, ◌<◌, ◌≡◌, arith}
use ch58x_hal.LinkLayer.Timing.{current, future, passed, classify_instant}

-- The instant that lies `distance` events after the counter, modulo 2 ^ 16, is the current one, in
-- the future by that distance, or passed, according to the distance alone.
pub classify_instant_distance :
    (event_counter distance : ℕ)
    → event_counter < 2 ^ 16
    → distance < 2 ^ 16
    → let relation = classify_instant event_counter ((event_counter + distance) % 2 ^ 16) in
      (distance ≡ 0 → relation ≡ current)
      × (1 ≤ distance → distance ≤ 32_766 → relation ≡ future distance)
      × (32_767 ≤ distance → relation ≡ passed)
unfolding classify_instant
classify_instant_distance event_counter distance p q =
    ((λ h. ground arith), (λ h k. ground arith), (λ h. ground arith))
