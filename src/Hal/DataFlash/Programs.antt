-- ===== src/Hal/DataFlash/Programs.antt =====
-- How a write is divided into page programs.
use ch58x_hal.Base.{ℕ, zero, suc, ◌+◌, ◌%◌, ◌≤◌, ◌<◌, ◌≡◌, refl, sym, ap, subst, ◌∙◌}
use ch58x_hal.Base.{arith, Option, some, List, [], ◌∷◌, ◌++◌, length, take, drop, All}
use ch58x_hal.Base.{ltb, leb, bit_or, if_of_false, Result, ok, err, length-drop, length-take}
use ch58x_hal.Hal.DataFlash.Transaction.{
  Flash, FlashError, capacity, data_flash_base, data_flash_alias, exposed_offset, ram_page_program,
}
use ch58x_hal.Hal.DataFlash.Storage.{
  and_ok, physical, program_count, program_at, programmed, write_rounds, write,
}

-- The octets of a program and where in the exposed window they go.
abbrev pub Program : Type 0
Program = ℕ × List ℕ

-- At least one octet and at most 32, within one page and within the window.
abbrev pub Fits : Program → Type 0
Fits (offset, octets) =
    (1 ≤ length octets)
    × (length octets ≤ 32)
    × (offset % 256 + length octets ≤ 256)
    × (offset + length octets ≤ 8_192)

abbrev pub all_octets : List Program → List ℕ
all_octets [] = []
all_octets ((offset, octets) ∷ plan) = octets ++ all_octets plan

-- Each program starts where the last one ended.
abbrev pub Follows : ℕ → List Program → Type 0
Follows start [] = Unit {0}
Follows start ((offset, octets) ∷ plan) = (offset ≡ start) × Follows (start + length octets) plan

abbrev pub address_of : ℕ → ℕ
address_of offset = bit_or data_flash_alias (data_flash_base + exposed_offset + offset)

abbrev pub IsPlan : ℕ → List ℕ → List Program → Type 0
IsPlan start octets plan = (all_octets plan ≡ octets) × Follows start plan × All Fits plan

take-drop : (n : ℕ) (xs : List ℕ) → take n xs ++ drop n xs ≡ xs
take-drop zero xs = refl
take-drop (suc n) [] = refl
take-drop (suc n) (x ∷ xs) = ap (◌∷◌ x) (take-drop n xs)

longer-IsPlan :
    (start count : ℕ) (octets : List ℕ) (plan : List Program)
    → length (take count octets) ≡ count
    → Fits (start, take count octets)
    → IsPlan (start + count) (drop count octets) plan
    → IsPlan start octets ((start, take count octets) ∷ plan)
longer-IsPlan start count octets plan len fits (all, follows, rest) = (
  ap (◌++◌ (take count octets)) all ∙ take-drop count octets,
  (refl, subst (λ (n : ℕ). Follows (start + n) plan) (sym len) follows),
  (fits, rest),
)

module _ (ctrl_at data_at : ℕ → ℕ) where
  -- The programs in their order, up to the first that fails.
  abbrev pub run : List Program → Flash → Flash × Result (Unit {0}) FlashError
  run [] f = (f, ok tt)
  run ((offset, octets) ∷ plan) f =
      and_ok (ram_page_program ctrl_at data_at (address_of offset) octets f) (run plan)

  programmed-run :
      (rest : Flash → Option (Flash × Result (Unit {0}) FlashError)) (plan : List Program)
      (p : Flash × Result (Unit {0}) FlashError)
      → ((g : Flash) → rest g ≡ some (run plan g))
      → programmed ctrl_at data_at rest p ≡ some (and_ok p (run plan))
  programmed-run rest plan (g, ok done) h = h g
  programmed-run rest plan (g, err e) h = refl

  physical_inside : (offset : ℕ) → offset < capacity → physical offset ≡ ok (address_of offset)
  unfolding physical
  physical_inside offset inside =
      if_of_false (leb capacity offset) (err FlashError.out_of_bounds) (ok (address_of offset))
        (ground (arith, inside))

  -- A plan, and that the loop runs it.
  abbrev Planned : ℕ → ℕ → List ℕ → Type 0
  Planned fuel start octets =
      (plan : List Program) × IsPlan start octets plan
      × ((f : Flash) → write_rounds ctrl_at data_at fuel start octets f ≡ some (run plan f))

  planned :
      (fuel start : ℕ) (octets : List ℕ)
      → length octets ≤ fuel
      → start + length octets ≤ capacity
      → Planned fuel start octets
  unfolding write_rounds
  planned fuel start [] le inside = ([], (refl, tt, tt), λ f. refl)
  planned zero start (octet ∷ octets) le inside = absurd (omega (arith, le))
  planned (suc fuel) start (octet ∷ octets) le inside =
      let count = program_count start (octet ∷ octets) in
      let chunk = take count (octet ∷ octets) in
      let left = drop count (octet ∷ octets) in
      let len = length-take count (octet ∷ octets) in
      let len_left = length-drop count (octet ∷ octets) in
      let rest =
        planned fuel (start + count) left (omega (arith, le, len_left))
          (omega (arith, inside, len_left)) in
      (
        (start, chunk) ∷ rest.0,
        longer-IsPlan start count (octet ∷ octets) rest.0 (omega (arith, len))
            (omega (arith, len), omega (arith, len), omega (arith, len), omega (arith, len, inside))
            rest.1,
        λ f.
            ap
              (λ a.
                programmed ctrl_at data_at (write_rounds ctrl_at data_at fuel (start + count) left)
                  (program_at ctrl_at data_at a chunk f))
              (physical_inside start (omega (arith, inside)))
            ∙ programmed-run (write_rounds ctrl_at data_at fuel (start + count) left) rest.0
                (ram_page_program ctrl_at data_at (address_of start) chunk f) rest.2,
      )

  -- A write that fits the exposed window is carried out as page programs that follow each other from
  -- its offset on and together hold exactly the data, up to the first that fails. Each holds 1 to 32
  -- octets, stays within a page of 256 octets and within the 8 KiB of the window.
  pub write_programs :
      (offset : ℕ) (octets : List ℕ) (f : Flash)
      → offset + length octets ≤ capacity
      → (plan : List Program) × IsPlan offset octets plan
        × (write ctrl_at data_at offset octets f ≡ some (run plan f))
  unfolding write
  write_programs offset octets f inside =
      let p = planned (length octets) offset octets (omega arith) inside in
      (
        p.0,
        p.1,
        if_of_false (ltb capacity (offset + length octets)) _
              (write_rounds ctrl_at data_at (length octets) offset octets f)
              (ground (arith, inside))
            ∙ p.2 f,
      )
