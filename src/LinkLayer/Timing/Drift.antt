-- ===== src/LinkLayer/Timing/Drift.antt =====
-- Window widening covers the clock drift, and no more than it must.
use native.Mathlib.Nat.{mul-le-mul, div-add-mod}
use ch58x_hal.Base.{ℕ, ◌+◌, ◌*◌, ◌/◌, ◌%◌, ◌^◌, ◌≤◌, ◌<◌, ◌≡◌, ap, arith}
use ch58x_hal.LinkLayer.Timing.{sleep_clock_accuracy_ppm, window_widening_us}

pub accuracy-le : (sca : ℕ) → sleep_clock_accuracy_ppm sca ≤ 500
unfolding sleep_clock_accuracy_ppm
accuracy-le sca = ground arith

-- The widening is the drift of both clocks over the elapsed time, rounded up to a microsecond; with
-- 64-bit times and 16-bit accuracies it never saturates.
pub window_widening_us_ceiling :
    (elapsed_us central_sca local_sca_ppm : ℕ)
    → elapsed_us < 2 ^ 64
    → local_sca_ppm < 2 ^ 16
    → let drift = elapsed_us * (sleep_clock_accuracy_ppm central_sca + local_sca_ppm) in
      let widening = window_widening_us elapsed_us central_sca local_sca_ppm in
      (drift ≤ widening * 1_000_000) × (widening * 1_000_000 < drift + 1_000_000)
unfolding window_widening_us
window_widening_us_ceiling elapsed_us central_sca local_sca_ppm p q =
    ground (arith, split, whole_fits, rest_fits)
  where
    ppm : ℕ
    ppm = sleep_clock_accuracy_ppm central_sca + local_sca_ppm

    whole_fits : elapsed_us / 1_000_000 * ppm ≤ 18446744073709 * 66035
    whole_fits =
        mul-le-mul {n₂ = 18446744073709} {m₂ = 66035} (omega arith)
          (omega (arith, accuracy-le central_sca))

    rest_fits : elapsed_us % 1_000_000 * ppm ≤ 999999 * 66035
    rest_fits =
        mul-le-mul {n₂ = 999999} {m₂ = 66035} (omega arith) (omega (arith, accuracy-le central_sca))

    split :
        elapsed_us * ppm ≡ elapsed_us / 1_000_000 * ppm * 1_000_000 + elapsed_us % 1_000_000 * ppm
    split = omega (arith, ap (λ (t : ℕ). t * ppm) (div-add-mod elapsed_us 1_000_000))
