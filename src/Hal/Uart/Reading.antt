-- ===== src/Hal/Uart/Reading.antt =====
-- What the receiver takes from the FIFO.
use ch58x_hal.Base.{ℕ, zero, suc, ◌≤◌, ◌<◌, ◌≡◌, ◌⊎◌, refl, sym, ap, subst, ◌∙◌, inl, inr}
use ch58x_hal.Base.{
  arith, Bool, true, false, Option, none, some, List, [], ◌∷◌, take, drop, All, map,
}
use ch58x_hal.Base.{Option-cases, Bool-cases, Result, ok, err, if◌then◌else◌}
use ch58x_hal.Hal.Uart.{
  Status, LineError, line_error, received, receive_byte, stored, prepended, read_available,
}

-- An octet stands ready, without an error.
abbrev pub IsReady : Status → Type 0
IsReady s = (line_error s ≡ none) × (s.data_rdy ≡ true)

-- Nothing stands ready, and there is no error.
abbrev pub IsQuiet : List Status → Type 0
IsQuiet [] = Unit {0}
IsQuiet (s ∷ line) = (line_error s ≡ none) × (s.data_rdy ≡ false)

abbrev pub Fails : LineError → List Status → Type 0
Fails e [] = ⊥
Fails e (s ∷ line) = line_error s ≡ some e

abbrev head_of : Status → ℕ
head_of s = s.head

-- The first `n` reads give an octet, and then the buffer is full, the FIFO is empty or the line has
-- an error.
abbrev pub Reads : ℕ → List Status → ℕ → Result (List ℕ) LineError → Type 0
Reads room line n result =
    (n ≤ room)
    × All IsReady (take n line)
    × (((result ≡ ok (map head_of (take n line))) × ((n ≡ room) ⊎ IsQuiet (drop n line)))
        ⊎ ((e : LineError) × (result ≡ err e) × (n < room) × Fails e (drop n line)))

one_more :
    (room n : ℕ) (s : Status) (line : List Status) (rest : Result (List ℕ) LineError)
    → IsReady s
    → Reads room line n rest
    → Reads (suc room) (s ∷ line) (suc n) (prepended s.head rest)
one_more room n s line rest ready (le, all, inl (same, inl full)) =
    (omega (arith, le), (ready, all), inl (ap (prepended s.head) same, inl (omega (arith, full))))
one_more room n s line rest ready (le, all, inl (same, inr quiet)) =
    (omega (arith, le), (ready, all), inl (ap (prepended s.head) same, inr quiet))
one_more room n s line rest ready (le, all, inr (e, same, lt, fails)) =
    (omega (arith, le), (ready, all), inr (e, ap (prepended s.head) same, omega (arith, lt), fails))

-- A read takes the octets that stand ready, in their order, until the buffer is full, nothing is
-- ready or the line has an error. In the last case it gives that error, also where octets have been
-- taken before it: their number is lost.
pub read_available_takes :
    (room : ℕ) (line : List Status) → (n : ℕ) × Reads room line n (read_available room line)
unfolding read_available receive_byte
read_available_takes zero line = (0, (omega arith, tt, inl (refl, inl refl)))
read_available_takes (suc room) [] = (0, (omega arith, tt, inl (refl, inr tt)))
read_available_takes (suc room) (s ∷ line) = elim (Option-cases (line_error s)) [
  | inr (e, failed) ↦
      (0, (omega arith, tt, inr (e, ap after (ap (received s) failed), omega arith, failed)))
  | inl clean ↦ elim (Bool-cases s.data_rdy) [
    | inr idle ↦ (
      0,
      (
        omega arith,
        tt,
        inl (ap after (ap (received s) clean ∙ ap flagged idle), inr (clean, idle)),
      ),
    )
    | inl ready ↦
        let rest = read_available_takes room line in
        (
          suc rest.0,
          subst (Reads (suc room) (s ∷ line) (suc rest.0))
              (sym (ap after (ap (received s) clean ∙ ap flagged ready)))
              (one_more room rest.0 s line (read_available room line) (clean, ready) rest.1),
        )
  ]
]
  where
    after : Result (Option ℕ) LineError → Result (List ℕ) LineError
    after r = stored (read_available room) line r

    flagged : Bool → Result (Option ℕ) LineError
    flagged b = ok (if b then some s.head else none)
