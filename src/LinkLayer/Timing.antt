-- ===== src/LinkLayer/Timing.antt =====
-- Clock accuracy, window widening, instants and timing fields of
-- crates/ble-controller/src/link_layer.rs.
pub mod Drift
pub mod Relation
use ch58x_hal.Base.{ℕ, zero, suc, ◌+◌, ◌-◌, ◌*◌, ◌/◌, ◌%◌, ◌^◌, Bool, true, false, ◌&&◌, ◌||◌}
use ch58x_hal.Base.{ltb, leb, ◌==◌, if◌then◌else◌, bit_and, u16, saturate}

unfoldable pub sleep_clock_accuracy_ppm : ℕ → ℕ
sleep_clock_accuracy_ppm sca =
    let bin = bit_and sca 0x07 in
    if bin == 0
    then 500
    else if bin == 1
    then 250
    else if bin == 2
    then 150
    else if bin == 3
    then 100
    else if bin == 4
    then 75
    else if bin == 5
    then 50
    else if bin == 6
    then 30
    else 20

-- `u64::div_ceil`.
abbrev div_ceil : ℕ → ℕ → ℕ
div_ceil n d = if ltb 0 (n % d) then n / d + 1 else n / d

unfoldable pub window_widening_us : ℕ → ℕ → ℕ → ℕ
window_widening_us elapsed_us central_sca local_sca_ppm =
    let total_ppm = sleep_clock_accuracy_ppm central_sca + local_sca_ppm in
    let whole = elapsed_us / 1_000_000 in
    let remainder = elapsed_us % 1_000_000 in
    saturate (saturate (whole * total_ppm) + div_ceil (saturate (remainder * total_ppm)) 1_000_000)

pub data InstantRelation : Type 0 where
  current : InstantRelation
  future : ℕ → InstantRelation
  passed : InstantRelation

unfoldable pub classify_instant : ℕ → ℕ → InstantRelation
classify_instant event_counter instant =
    let delta = u16 (instant + 2 ^ 16 - event_counter) in
    if delta == 0 then current else if leb delta 32_766 then future delta else passed

-- The product is exact. In the source it has 32 bits and is formed before the tests of the ranges: it
-- can overflow only where one of them fails, so that the verdict is the same where it wraps; a build
-- with overflow checks panics there.
unfoldable pub connection_timing_is_valid : ℕ → ℕ → ℕ → ℕ → ℕ → Bool
connection_timing_is_valid window_size window_offset interval latency supervision_timeout =
    let timeout_in_interval_units = supervision_timeout * 8 in
    let maximum_event_span = 2 * (latency + 1) * interval in
    leb 1 window_size
    && (leb window_size 8
        && (leb 6 interval
            && (leb interval 3_200
                && (leb window_offset interval
                    && (ltb window_size interval
                        && (leb latency 499
                            && (leb 10 supervision_timeout
                                && (leb supervision_timeout 3_200
                                    && ltb maximum_event_span timeout_in_interval_units))))))))

unfoldable pub connection_parameter_range_is_valid : ℕ → ℕ → ℕ → ℕ → Bool
connection_parameter_range_is_valid interval_min interval_max latency supervision_timeout =
    leb 6 interval_min
    && (leb interval_min interval_max
        && (leb interval_max 3_200
            && (leb latency 499
                && (leb 10 supervision_timeout
                    && (leb supervision_timeout 3_200
                        && ltb (2 * (latency + 1) * interval_max) (supervision_timeout * 8))))))
