-- ===== src/Hci/Events.antt =====
-- The two event masks: which events reach the host.
use ch58x_hal.Base.{ℕ, ◌-◌, ◌/◌, ◌%◌, ◌^◌, ◌≤◌, ◌≡◌, ◌⊎◌, inl, inr, ◌↔◌}
use ch58x_hal.Base.{arith, true, List, [], ◌∷◌}
use ch58x_hal.Base.Bits.Test.{bit_set}
use ch58x_hal.Hci.{subevent_enabled, event_enabled}

-- The events of the command and data credits.
abbrev pub IsCredit : ℕ → Type 0
IsCredit code = (code ≡ 0x0e) ⊎ (code ≡ 0x0f) ⊎ (code ≡ 0x13)

-- The mask has the bit of a code, which counts from one.
pub record IsUnmasked (mask code : ℕ) : Type 0 where
  pub low : 1 ≤ code
  pub high : code ≤ 64
  pub bit : mask / 2 ^ (code - 1) % 2 ≡ 1

abbrev pub FirstIsUnmasked : ℕ → List ℕ → Type 0
FirstIsUnmasked le_mask [] = ⊥
FirstIsUnmasked le_mask (subevent ∷ rest) = IsUnmasked le_mask subevent

abbrev pub IsAllowed : ℕ → ℕ → ℕ → List ℕ → Type 0
IsAllowed mask le_mask code params =
    IsUnmasked mask code × (code ≡ 0x3e → FirstIsUnmasked le_mask params)

subevent_forth :
    (le_mask : ℕ) (params : List ℕ)
    → subevent_enabled le_mask params ≡ true
    → FirstIsUnmasked le_mask params
subevent_forth le_mask [] h = absurd (ground arith)
subevent_forth le_mask (s ∷ rest) h = ground (arith, bit_set le_mask (s - 1))

subevent_back :
    (le_mask : ℕ) (params : List ℕ)
    → FirstIsUnmasked le_mask params
    → subevent_enabled le_mask params ≡ true
subevent_back le_mask [] h = absurd h
subevent_back le_mask (s ∷ rest) h = ground (arith, bit_set le_mask (s - 1), h.low, h.high, h.bit)

forth :
    (mask le_mask code : ℕ) (params : List ℕ)
    → event_enabled mask le_mask code params ≡ true
    → IsCredit code ⊎ IsAllowed mask le_mask code params
unfolding event_enabled
forth mask le_mask code params h =
    ground (arith, bit_set mask (code - 1), subevent_forth le_mask params)

back :
    (mask le_mask code : ℕ) (params : List ℕ)
    → IsCredit code ⊎ IsAllowed mask le_mask code params
    → event_enabled mask le_mask code params ≡ true
unfolding event_enabled
back mask le_mask code params (inl c) = ground arith
back mask le_mask code params (inr a) =
    ground (
      arith,
      bit_set mask (code - 1),
      subevent_back le_mask params,
      a.0.low,
      a.0.high,
      a.0.bit,
      a.1,
    )

-- An event reaches the host exactly when it carries credits or its bit, counted from one, is set in
-- the event mask and, for an LE event, the bit of its subevent in the LE mask as well.
pub event_enabled_iff :
    (mask le_mask code : ℕ) (params : List ℕ)
    → (event_enabled mask le_mask code params ≡ true)
      ↔ (IsCredit code ⊎ IsAllowed mask le_mask code params)
event_enabled_iff mask le_mask code params =
    (forth mask le_mask code params, back mask le_mask code params)
