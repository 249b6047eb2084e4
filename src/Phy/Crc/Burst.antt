-- ===== src/Phy/Crc/Burst.antt =====
-- What the CRC of crc.rs detects: the register as a function of the bits that enter it.
use mathlib.Core.List.{append_assoc}
use ch58x_hal.Base.{ℕ, zero, suc, ◌+◌, ◌*◌, ◌/◌, ◌%◌, ◌^◌, ◌≤◌, ◌<◌, ◌≡◌, refl, sym, ap, ap₂}
use ch58x_hal.Base.{
  ◌∙◌, subst, arith, bit_and, for_range, for_range, List, [], ◌∷◌, ◌++◌, length, All, IsByte,
}
use ch58x_hal.Base.Bits.Mask.{and-low}
use ch58x_hal.Phy.Crc.{crc_bit, crc_octet, crc_octets, crc24}
use ch58x_hal.Phy.Crc.Step.{shift_in, shift_in-lt, shift_in_back, crc_bit-shift_in}

abbrev IsBit : ℕ → Type 0
IsBit b = b ≤ 1

run : List ℕ → ℕ → ℕ
run [] s = s
run (b ∷ bs) s = run bs (shift_in b s)

run-lt : (bs : List ℕ) (s : ℕ) → s < 2 ^ 24 → run bs s < 2 ^ 24
unfolding run
run-lt [] s h = h
run-lt (b ∷ bs) s h = run-lt bs (shift_in b s) (shift_in-lt b s)

run-append : (xs ys : List ℕ) (s : ℕ) → run (xs ++ ys) s ≡ run ys (run xs s)
unfolding run
run-append [] ys s = refl
run-append (x ∷ xs) ys s = run-append xs ys (shift_in x s)

-- Going back over some bits, whatever they are, loses at most as many positions.
run_back :
    (m k : ℕ) (xs ys : List ℕ) (s t : ℕ)
    → length xs + k ≡ m
    → length ys + k ≡ m
    → m ≤ 24
    → run xs s % 2 ^ m ≡ run ys t % 2 ^ m
    → s % 2 ^ k ≡ t % 2 ^ k
unfolding run
run_back m k [] [] s t e f h g =
    let same : m ≡ k = omega arith in subst (λ j. s % 2 ^ j ≡ t % 2 ^ j) same g
run_back m k [] (y ∷ ys) s t e f h g = absurd (omega arith)
run_back m k (x ∷ xs) [] s t e f h g = absurd (omega arith)
run_back m k (x ∷ xs) (y ∷ ys) s t e f h g =
    let rest =
      run_back m (suc k) xs ys (shift_in x s) (shift_in y t) (omega arith) (omega arith) h g in
    (shift_in_back k x y s t (omega arith) rest).0

-- From one register at most 24 bits are determined by where they lead.
run_injective :
    (xs ys : List ℕ) (s : ℕ)
    → All IsBit xs
    → All IsBit ys
    → length xs ≡ length ys
    → length xs ≤ 24
    → run xs s ≡ run ys s
    → xs ≡ ys
unfolding run
run_injective [] [] s p q e h g = refl
run_injective [] (y ∷ ys) s p q e h g = absurd (omega arith)
run_injective (x ∷ xs) [] s p q e h g = absurd (omega arith)
run_injective (x ∷ xs) (y ∷ ys) s p q e h g =
    ap₂ ◌∷◌ first (run_injective xs ys (shift_in x s) p.1 q.1 (omega arith) (omega arith) rest)
  where
    after : shift_in x s % 2 ^ 1 ≡ shift_in y s % 2 ^ 1
    after =
        run_back (length xs + 1) 1 xs ys (shift_in x s) (shift_in y s) (omega arith) (omega arith)
          (omega arith) (ap (λ (n : ℕ). n % 2 ^ (length xs + 1)) g)

    first : x ≡ y
    first = omega (arith, (shift_in_back 0 x y s s (omega arith) after).1, p.0, q.0)

    rest : run xs (shift_in x s) ≡ run ys (shift_in x s)
    rest = g ∙ ap (λ (b : ℕ). run ys (shift_in b s)) (sym first)

-- The same bits lead different registers to different ones.
run_bijective : (bs : List ℕ) (s t : ℕ) → s < 2 ^ 24 → t < 2 ^ 24 → run bs s ≡ run bs t → s ≡ t
unfolding run
run_bijective [] s t p q e = e
run_bijective (b ∷ bs) s t p q e =
    let step = run_bijective bs _ _ (shift_in-lt b s) (shift_in-lt b t) e in
    let back = shift_in_back 23 b b s t (omega arith) (ap (λ (n : ℕ). n % 2 ^ 24) step) in
    omega (arith, back.0, back.1)

-- The octet's bits in the order in which they enter, the least significant first.
abbrev bits_from : ℕ → ℕ → ℕ → List ℕ
bits_from zero i n = []
bits_from (suc k) i n = n / 2 ^ i % 2 ∷ bits_from k (suc i) n

abbrev bits : ℕ → List ℕ
bits n = bits_from 8 0 n

all_bits : List ℕ → List ℕ
all_bits [] = []
all_bits (n ∷ ns) = bits n ++ all_bits ns

crc_rounds-run : (k i n s : ℕ) → s < 2 ^ 24 → for_range k i (crc_bit n) s ≡ run (bits_from k i n) s
unfolding run
crc_rounds-run zero i n s h = refl
crc_rounds-run (suc k) i n s h =
    ap (for_range k (suc i) (crc_bit n)) (crc_bit-shift_in n i s h)
    ∙ crc_rounds-run k (suc i) n _ (shift_in-lt _ s)

crc_octet-run : (n s : ℕ) → s < 2 ^ 24 → crc_octet n s ≡ run (bits n) s
unfolding crc_octet
crc_octet-run n s h = crc_rounds-run 8 0 n s h

crc_octets-run : (ns : List ℕ) (s : ℕ) → s < 2 ^ 24 → crc_octets ns s ≡ run (all_bits ns) s
unfolding crc_octets all_bits
crc_octets-run [] s h = unfold run in refl
crc_octets-run (n ∷ ns) s h =
    ap (crc_octets ns) (crc_octet-run n s h)
    ∙ crc_octets-run ns (run (bits n) s) (run-lt (bits n) s h)
    ∙ sym (run-append (bits n) (all_bits ns) s)

all_bits-append : (xs ys : List ℕ) → all_bits (xs ++ ys) ≡ all_bits xs ++ all_bits ys
unfolding all_bits
all_bits-append [] ys = refl
all_bits-append (x ∷ xs) ys =
    ap (◌++◌ (bits x)) (all_bits-append xs ys)
    ∙ sym (append_assoc (bits x) (all_bits xs) (all_bits ys))

All-append_bits : (xs ys : List ℕ) → All IsBit xs → All IsBit ys → All IsBit (xs ++ ys)
All-append_bits [] ys p q = q
All-append_bits (x ∷ xs) ys p q = (p.0, All-append_bits xs ys p.1 q)

bits_from-IsBit : (k i n : ℕ) → All IsBit (bits_from k i n)
bits_from-IsBit zero i n = tt
bits_from-IsBit (suc k) i n = (omega arith, bits_from-IsBit k (suc i) n)

all_bits-IsBit : (xs : List ℕ) → All IsBit (all_bits xs)
unfolding all_bits
all_bits-IsBit [] = tt
all_bits-IsBit (x ∷ xs) =
    All-append_bits (bits x) (all_bits xs) (bits_from-IsBit 8 0 x) (all_bits-IsBit xs)

length-all_bits : (xs : List ℕ) → length (all_bits xs) ≡ 8 * length xs
unfolding all_bits
length-all_bits [] = omega arith
length-all_bits (x ∷ xs) = omega (arith, length-all_bits xs)

all_bits_injective :
    (xs ys : List ℕ) → All IsByte xs → All IsByte ys → all_bits xs ≡ all_bits ys → xs ≡ ys
unfolding all_bits
all_bits_injective [] [] p q e = refl
all_bits_injective [] (y ∷ ys) p q e = cc
all_bits_injective (x ∷ xs) [] p q e = cc
all_bits_injective (x ∷ xs) (y ∷ ys) p q e =
    ap₂ ◌∷◌ (ground arith) (all_bits_injective xs ys p.1 q.1 (ground arith))

-- The register after a message that has three parts.
crc24_parts :
    (pre mid post : List ℕ) (init : ℕ)
    → crc24 (pre ++ (mid ++ post)) init
      ≡ run (all_bits post) (run (all_bits mid) (run (all_bits pre) (bit_and init 0xffffff)))
unfolding crc24
crc24_parts pre mid post init =
    crc_octets-run (pre ++ (mid ++ post)) (bit_and init 0xffffff) start
    ∙ ap (λ (bs : List ℕ). run bs (bit_and init 0xffffff)) split
    ∙ run-append (all_bits pre) (all_bits mid ++ all_bits post) _
    ∙ run-append (all_bits mid) (all_bits post) _
  where
    start : bit_and init 0xffffff < 2 ^ 24
    start = omega (arith, and-low 24 init)

    split : all_bits (pre ++ (mid ++ post)) ≡ all_bits pre ++ (all_bits mid ++ all_bits post)
    split = all_bits-append pre (mid ++ post) ∙ ap (◌++◌ (all_bits pre)) (all_bits-append mid post)

-- An error confined to at most three successive octets, wherever they stand in the message and
-- whatever the initial value is, always changes the CRC: two messages that differ at most there
-- and have the same CRC are equal.
pub crc24_detects_bursts :
    (pre xs ys post : List ℕ) (init : ℕ)
    → All IsByte xs
    → All IsByte ys
    → length xs ≡ length ys
    → length xs ≤ 3
    → crc24 (pre ++ (xs ++ post)) init ≡ crc24 (pre ++ (ys ++ post)) init
    → xs ≡ ys
crc24_detects_bursts pre xs ys post init p q e h g = all_bits_injective xs ys p q (
    run_injective (all_bits xs) (all_bits ys) before (all_bits-IsBit xs) (all_bits-IsBit ys)
      (omega (arith, length-all_bits xs, length-all_bits ys)) (omega (arith, length-all_bits xs))
      after)
  where
    before : ℕ
    before = run (all_bits pre) (bit_and init 0xffffff)

    before-lt : before < 2 ^ 24
    before-lt = run-lt (all_bits pre) _ (omega (arith, and-low 24 init))

    after : run (all_bits xs) before ≡ run (all_bits ys) before
    after =
        run_bijective (all_bits post) _ _ (run-lt (all_bits xs) before before-lt)
          (run-lt (all_bits ys) before before-lt)
          (sym (crc24_parts pre xs post init) ∙ g ∙ crc24_parts pre ys post init)
