-- ===== src/Hal/Uart/Baud.antt =====
-- The dividers that `select_baud` finds.
use ch58x_hal.Base.{ℕ, zero, suc, ◌+◌, ◌≤◌, ◌<◌, ◌≡◌, ◌⊎◌, sym, ap, subst, ◌∙◌, inl, inr}
use ch58x_hal.Base.{
  arith, false, Option, none, some, ltb, if◌then◌else◌, if_of_false, for_range, ◌==◌, ◌||◌,
}
use ch58x_hal.Base.{Option-cases, Bool-cases}
use ch58x_hal.Hal.Uart.{BaudDividers, candidate, better, select_baud}

module _ (tried : ℕ → Option BaudDividers) where
  -- `d` is what an earlier round has tried.
  abbrev pub IsTried : ℕ → ℕ → BaudDividers → Type 0
  IsTried bound p d = (1 ≤ p) × (p < bound) × (tried p ≡ some d)

  -- The first of the least error among the predividers below `bound`.
  abbrev pub IsBest : ℕ → Option BaudDividers → Type 0
  IsBest bound none = (q : ℕ) (d : BaudDividers) → ¬ IsTried bound q d
  IsBest bound (some b) =
      (p : ℕ) × IsTried bound p b
      × ((q : ℕ) (d : BaudDividers)
          → IsTried bound q d
          → (b.error_ppm ≤ d.error_ppm) × (q < p → b.error_ppm < d.error_ppm))

  earlier_or_last :
      (bound q : ℕ) (d : BaudDividers)
      → IsTried (suc bound) q d
      → IsTried bound q d ⊎ ((q ≡ bound) × (tried bound ≡ some d))
  earlier_or_last bound q d (l, u, t) = elim (Bool-cases (ltb q bound)) [
    | inl e ↦ inl (l, ground (arith, e), t)
    | inr e ↦ let same = last e in inr (same, ap tried (sym same) ∙ t)
  ]
    where
      last : ltb q bound ≡ false → q ≡ bound
      last e = ground (arith, e, u)

  module _ (bound : ℕ) (l : 1 ≤ bound) where
    nothing_new :
        (best : Option BaudDividers)
        → tried bound ≡ none
        → IsBest bound best
        → IsBest (suc bound) best
    nothing_new none e h = λ q d t. elim (earlier_or_last bound q d t) [
      | inl old ↦ h q d old
      | inr (same, new) ↦ cc (e, new)
    ]
    nothing_new (some b) e (p, (x, y, z), h) = (
      p,
      (x, omega (arith, y), z),
      λ q d t. elim (earlier_or_last bound q d t) [
        | inl old ↦ h q d old
        | inr (same, new) ↦ absurd (cc (e, new))
      ],
    )

    first_new :
        (c : BaudDividers) → tried bound ≡ some c → IsBest bound none → IsBest (suc bound) (some c)
    first_new c e h = (
      bound,
      (l, omega arith, e),
      λ q d t. elim (earlier_or_last bound q d t) [
        | inl old ↦ absurd (h q d old)
        | inr (same, new) ↦ ground (arith, same, e, new)
      ],
    )

    compared :
        (c b : BaudDividers)
        → tried bound ≡ some c
        → IsBest bound (some b)
        → IsBest (suc bound) (better (some c) (some b))
    compared c b e (p, (x, y, z), h) = elim (Bool-cases (ltb c.error_ppm b.error_ppm)) [
      | inl less ↦ subst (IsBest (suc bound)) (sym (ap (λ t. if t then some c else some b) less)) (
        bound,
        (l, omega arith, e),
        λ q d t. elim (earlier_or_last bound q d t) [
          | inl old ↦ ground (arith, less, h q d old)
          | inr (same, new) ↦ ground (arith, same, e, new)
        ],
      )
      | inr more ↦ subst (IsBest (suc bound)) (sym (ap (λ t. if t then some c else some b) more)) (
        p,
        (x, omega (arith, y), z),
        λ q d t. elim (earlier_or_last bound q d t) [
          | inl old ↦ h q d old
          | inr (same, new) ↦ ground (arith, more, same, y, e, new)
        ],
      )
    ]

    better-IsBest :
        (best : Option BaudDividers)
        → IsBest bound best
        → IsBest (suc bound) (better (tried bound) best)
    better-IsBest best h = elim (Option-cases (tried bound)) [
      | inl e ↦ subst (λ o. IsBest (suc bound) (better o best)) (sym e) (nothing_new best e h)
      | inr (c, e) ↦ subst (λ o. IsBest (suc bound) (better o best)) (sym e) (new c e best h)
    ]
      where
        new :
            (c : BaudDividers)
            → tried bound ≡ some c
            → (best : Option BaudDividers) → IsBest bound best
            → IsBest (suc bound) (better (some c) best)
        new c e none h = first_new c e h
        new c e (some b) h = compared c b e h

  rounds-IsBest :
      (n i : ℕ) (best : Option BaudDividers)
      → 1 ≤ i
      → IsBest i best
      → IsBest (i + n) (for_range n i (λ p b. better (tried p) b) best)
  rounds-IsBest zero i best l h =
      subst (λ (k : ℕ). IsBest k best) {x = i} {y = i + 0} (omega arith) h
  rounds-IsBest (suc n) i best l h =
      subst
        (λ (k : ℕ).
          IsBest k (for_range n (suc i) (λ p b. better (tried p) b) (better (tried i) best)))
        {x = suc i + n} {y = i + suc n} (omega arith)
        (rounds-IsBest n (suc i) (better (tried i) best) (omega arith) (better-IsBest i l best h))

-- For a running clock and a rate above zero, `select_baud` gives the first of the least error among
-- what its 128 predividers give with the rounded latch, and nothing exactly if no predivider has a
-- latch of 16 bits.
pub select_baud-IsBest :
    (clock_hz baudrate : ℕ)
    → 1 ≤ clock_hz
    → 1 ≤ baudrate
    → IsBest (candidate clock_hz baudrate) 129 (select_baud clock_hz baudrate)
unfolding select_baud
select_baud-IsBest clock_hz baudrate c b =
    subst (IsBest (candidate clock_hz baudrate) 129)
      (sym (if_of_false (clock_hz == 0 || baudrate == 0) none _ (ground (arith, c, b))))
      (rounds-IsBest (candidate clock_hz baudrate) 128 1 none (omega arith)
        (λ q d t. omega (arith, t.0, t.1)))
