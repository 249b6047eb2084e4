-- ===== src/LinkLayer/AccessAddress/Runs.antt =====
-- The loop of `data_access_address_is_valid`: what the count of equal bits means.
use ch58x_hal.Base.{
  ℕ, zero, suc, ◌+◌, ◌-◌, ◌≤◌, ◌<◌, ◌≡◌, ◌⊎◌, inl, inr, ◌↔◌, refl, sym, ap, subst, ◌∙◌,
}
use ch58x_hal.Base.{arith, Bool, true, false, Bool-cases, bit_and}
use ch58x_hal.LinkLayer.AccessAddress.{bit_at, runs_are_short, data_access_address_is_valid}

-- The `n` bits from `bit` on are all `value`.
abbrev pub IsRun : ℕ → ℕ → ℕ → ℕ → Type 0
IsRun address bit n value = (k : ℕ) → k < n → bit_at address (bit + k) ≡ value

IsRun-shift :
    (address bit n value : ℕ) → IsRun address bit (suc n) value → IsRun address (bit + 1) n value
IsRun-shift address bit n value r k lt = ap (bit_at address) (omega arith) ∙ r (suc k) (omega arith)

-- A run that would make more than six ends the loop.
run_rejected :
    (n rounds address bit previous run : ℕ)
    → n ≤ rounds
    → 1 ≤ n
    → run + n ≡ 7
    → IsRun address bit n previous
    → runs_are_short address rounds bit previous run ≡ false
unfolding runs_are_short
run_rejected zero rounds address bit previous run le pos sum r = absurd (omega arith)
run_rejected (suc n) zero address bit previous run le pos sum r = absurd (omega arith)
run_rejected (suc zero) (suc rounds) address bit previous run le pos sum r =
    ground (arith, ap (bit_at address) (the_same bit), r 0 (omega arith))
  where
    the_same : (b : ℕ) → b ≡ b + 0
    the_same b = omega arith
run_rejected (suc (suc n)) (suc rounds) address bit previous run le pos sum r = ground (
  arith,
  ap (bit_at address) (the_same bit),
  r 0 (omega arith),
  run_rejected (suc n) rounds address (bit + 1) previous (run + 1) (omega arith) (omega arith)
      (omega arith) (IsRun-shift address bit (suc n) previous r),
)
  where
    the_same : (b : ℕ) → b ≡ b + 0
    the_same b = omega arith

IsRun-extend :
    (address start run value : ℕ)
    → IsRun address start run value
    → bit_at address (start + run) ≡ value
    → IsRun address start (run + 1) value
IsRun-extend address start run value r e k lt = elim (below k run lt) [
  | inl less ↦ r k less
  | inr same ↦ ap (λ (j : ℕ). bit_at address (start + j)) same ∙ e
]
  where
    below : (a b : ℕ) → a < b + 1 → (a < b) ⊎ (a ≡ b)
    below a b h = ground arith

IsRun-start : (address start : ℕ) → IsRun address start 1 (bit_at address start)
IsRun-start address start k lt = ap (bit_at address) same
  where
    same : start + k ≡ start
    same = omega arith

module _ (rounds address bit previous run : ℕ) where
  next_true :
      runs_are_short address (suc rounds) bit previous run ≡ true
      → ((bit_at address bit ≡ previous)
          × (run + 1 ≤ 6)
          × (runs_are_short address rounds (bit + 1) previous (run + 1) ≡ true))
        ⊎ (runs_are_short address rounds (bit + 1) (bit_at address bit) 1 ≡ true)
  unfolding runs_are_short
  next_true h = ground arith

  next_false :
      runs_are_short address (suc rounds) bit previous run ≡ false
      → ((bit_at address bit ≡ previous) × (6 < run + 1))
        ⊎ ((bit_at address bit ≡ previous)
            × (run + 1 ≤ 6)
            × (runs_are_short address rounds (bit + 1) previous (run + 1) ≡ false))
        ⊎ (runs_are_short address rounds (bit + 1) (bit_at address bit) 1 ≡ false)
  unfolding runs_are_short
  next_false h = ground arith

-- A loop that ends with success has met no run of seven from `bit` on, the bit before included.
none_met :
    (rounds address bit previous run i : ℕ)
    → 1 ≤ run
    → run ≤ 6
    → previous ≡ bit_at address bit
    → runs_are_short address rounds (bit + 1) previous run ≡ true
    → bit ≤ i
    → i + 7 ≤ bit + 1 + rounds
    → IsRun address i 7 (bit_at address i)
    → ⊥
none_met zero address bit previous run i pos le p h low high w = absurd (omega arith)
none_met (suc rounds) address bit previous run i pos le p h low high w = elim (position bit i low) [
  | inl here ↦ at_once here
  | inr later ↦ elim (next_true rounds address (bit + 1) previous run h) [
    | inl same ↦
        none_met rounds address (bit + 1) previous (run + 1) i (omega arith) same.1 (sym same.0)
          same.2 later (omega arith) w
    | inr changed ↦
        none_met rounds address (bit + 1) (bit_at address (bit + 1)) 1 i (omega arith) (omega arith)
          refl changed later (omega arith) w
  ]
]
  where
    position : (a b : ℕ) → a ≤ b → (a ≡ b) ⊎ (a + 1 ≤ b)
    position a b h = ground arith

    at_once : bit ≡ i → ⊥
    at_once here = ground (
      arith,
      run_rejected (7 - run) (suc rounds) address (bit + 1) previous run (omega arith) (omega arith)
          (omega arith) tail,
    )
      where
        tail : IsRun address (bit + 1) (7 - run) previous
        tail k lt =
            ap (bit_at address) shifted
            ∙ w (k + 1) (omega arith)
            ∙ sym (p ∙ ap (bit_at address) here)
          where
            shifted : bit + 1 + k ≡ i + (k + 1)
            shifted = omega arith

-- A loop that ends early has met a run of seven.
one_met :
    (rounds address start run previous : ℕ)
    → 1 ≤ run
    → run ≤ 6
    → IsRun address start run previous
    → runs_are_short address rounds (start + run) previous run ≡ false
    → (i : ℕ) × (v : ℕ) × (i + 7 ≤ start + run + rounds) × IsRun address i 7 v
unfolding runs_are_short
one_met zero address start run previous pos le r h = absurd (ground arith)
one_met (suc rounds) address start run previous pos le r h =
    elim (next_false rounds address (start + run) previous run h) [
      | inl seven ↦ (
        start,
        previous,
        omega arith,
        subst (λ (n : ℕ). IsRun address start n previous) (six seven.1)
            (IsRun-extend address start run previous r seven.0),
      )
      | inr (inl same) ↦ further (
          one_met rounds address start (run + 1) previous (omega arith) same.1
            (IsRun-extend address start run previous r same.0)
            (subst (λ (b : ℕ). runs_are_short address rounds b previous (run + 1) ≡ false)
              (assoc start run) same.2))
      | inr (inr changed) ↦ other (
          one_met rounds address (start + run) 1 (bit_at address (start + run)) (omega arith)
            (omega arith) (IsRun-start address (start + run)) changed)
    ]
  where
    six : 6 < run + 1 → run + 1 ≡ 7
    six h = omega arith

    assoc : (a b : ℕ) → a + b + 1 ≡ a + (b + 1)
    assoc a b = omega arith

    Window : Type 0
    Window = (i : ℕ) × (v : ℕ) × (i + 7 ≤ start + run + suc rounds) × IsRun address i 7 v

    further :
        (i : ℕ) × (v : ℕ) × (i + 7 ≤ start + (run + 1) + rounds) × IsRun address i 7 v → Window
    further m = (m.0, m.1, omega (arith, m.2), m.3)

    other : (i : ℕ) × (v : ℕ) × (i + 7 ≤ start + run + 1 + rounds) × IsRun address i 7 v → Window
    other m = (m.0, m.1, omega (arith, m.2), m.3)

valid_runs :
    (address : ℕ) (coded_phy : Bool)
    → data_access_address_is_valid address coded_phy ≡ true
    → runs_are_short address 31 1 (bit_and address 1) 1 ≡ true
unfolding data_access_address_is_valid
valid_runs address coded_phy h = ground arith

lowest : (address : ℕ) → bit_and address 1 ≡ bit_at address 0
lowest address = ap (λ (n : ℕ). bit_and n 1) (omega arith)

-- The loop over the bits succeeds exactly when no seven consecutive ones of the 32 are equal, and a
-- valid access address, for either PHY, has no such run.
pub no_seven_equal_bits :
    (address : ℕ)
    → ((runs_are_short address 31 1 (bit_and address 1) 1 ≡ true)
        ↔ ((i v : ℕ) → i + 7 ≤ 32 → IsRun address i 7 v → ⊥))
      × ((coded_phy : Bool)
          → data_access_address_is_valid address coded_phy ≡ true
          → (i v : ℕ) → i + 7 ≤ 32
          → IsRun address i 7 v
          → ⊥)
no_seven_equal_bits address =
    ((forth, back), (λ coded_phy h. forth (valid_runs address coded_phy h)))
  where
    own : (i v : ℕ) → IsRun address i 7 v → IsRun address i 7 (bit_at address i)
    own i v w k lt = w k lt ∙ sym (w 0 (omega arith)) ∙ ap (bit_at address) (omega arith)

    forth :
        runs_are_short address 31 1 (bit_and address 1) 1 ≡ true
        → (i v : ℕ) → i + 7 ≤ 32
        → IsRun address i 7 v
        → ⊥
    forth h i v le w =
        none_met 31 address 0 (bit_and address 1) 1 i (omega arith) (omega arith) (lowest address) h
          (omega arith) le (own i v w)

    back :
        ((i v : ℕ) → i + 7 ≤ 32 → IsRun address i 7 v → ⊥)
        → runs_are_short address 31 1 (bit_and address 1) 1 ≡ true
    back none = elim (Bool-cases (runs_are_short address 31 1 (bit_and address 1) 1)) [
      | inl e ↦ e
      | inr e ↦
          absurd (
            refute (one_met 31 address 0 1 (bit_and address 1) (omega arith) (omega arith) first e))
    ]
      where
        first : IsRun address 0 1 (bit_and address 1)
        first k lt = ap (bit_at address) {y = 0} (omega arith) ∙ sym (lowest address)

        refute : (i : ℕ) × (v : ℕ) × (i + 7 ≤ 0 + 1 + 31) × IsRun address i 7 v → ⊥
        refute m = none m.0 m.1 (omega (arith, m.2)) m.3
