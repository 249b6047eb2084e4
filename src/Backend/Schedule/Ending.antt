-- ===== src/Backend/Schedule/Ending.antt =====
-- The loop of `skip_expired_events` ends, whatever the connection and the clock are.
use ch58x_hal.Base.{ℕ, zero, suc, ◌+◌, ◌^◌, ◌<◌, ◌≡◌, ◌≢◌, inl, inr}
use ch58x_hal.Base.{arith, Bool, false, ◌||◌, Option, none, some, Result, ok, err}
use ch58x_hal.Base.{ltb, Bool-cases, Option-cases}
use ch58x_hal.Backend.Connection.{ActiveConnection}
use ch58x_hal.Backend.Schedule.{
  skip_event, skip_rounds, skip_expired_events, receive_close, Skipped, count_round,
}

count_round-ne-none :
    (rounds : ℕ → Bool → ActiveConnection → Option Skipped) (count : ℕ) (notify : Bool)
    (p : ActiveConnection × Result Bool ℕ)
    → (count + 1 < 2 ^ 16 → (b : Bool) (d : ActiveConnection) → rounds (count + 1) b d ≢ none)
    → count_round rounds count notify p ≢ none
count_round-ne-none rounds count notify (d, err e) h = cc
count_round-ne-none rounds count notify (d, ok changed) h =
    elim (Bool-cases (ltb (count + 1) (2 ^ 16))) [
      | inl e ↦ rw e (h (ground arith) (notify || changed) d)
      | inr e ↦ rw e (cc)
    ]

skip_rounds-ne-none :
    (fuel now : ℕ) (clock : ℕ → ℕ) (count : ℕ) (notify : Bool) (c : ActiveConnection)
    → count + fuel ≡ 2 ^ 16
    → count < 2 ^ 16
    → skip_rounds fuel now clock count notify c ≢ none
unfolding skip_rounds
skip_rounds-ne-none zero now clock count notify c f lt = absurd (omega arith)
skip_rounds-ne-none (suc fuel) now clock count notify c f lt =
    elim (Bool-cases (ltb (receive_close c) now)) [
      | inl e ↦ rw e (
          count_round-ne-none (skip_rounds fuel now clock) count notify (skip_event c (clock count))
            λ below b d. skip_rounds-ne-none fuel now clock (count + 1) b d (omega arith) below)
      | inr e ↦ rw e (cc)
    ]

-- Whatever the connection, its pending updates and the clock are, 2 ^ 16 rounds are enough for the
-- loop of `skip_expired_events`.
pub skip_expired_events_total :
    (c : ActiveConnection) (now : ℕ) (clock : ℕ → ℕ)
    → (result : Skipped) × (skip_expired_events c now clock ≡ some result)
unfolding skip_expired_events
skip_expired_events_total c now clock = elim (Option-cases (skip_expired_events c now clock)) [
  | inl e ↦ absurd (skip_rounds-ne-none (2 ^ 16) now clock 0 false c (omega arith) (omega arith) e)
  | inr e ↦ e
]
