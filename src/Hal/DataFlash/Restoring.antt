-- ===== src/Hal/DataFlash/Restoring.antt =====
-- What every operation on the data flash leaves behind.
use ch58x_hal.Base.{ℕ, zero, suc, ◌+◌, ◌-◌, ◌/◌, ◌≤◌, ◌≡◌, refl}
use ch58x_hal.Base.{arith, ◌||◌, Option, none, some, List, [], ◌∷◌, length, take, drop}
use ch58x_hal.Base.{ltb, leb, ◌==◌, ◌!=◌, bit_and, if_both, Result, ok, err, length-drop}
use ch58x_hal.Hal.DataFlash.Transaction.{Flash, FlashError, capacity, erase_size}
use ch58x_hal.Hal.DataFlash.Storage.{
  and_ok, physical, read_at, read, erase_at, erase_blocks, erase, program_count, program_at,
  programmed, write_rounds, write,
}
use ch58x_hal.Hal.DataFlash.Closing.{
  IsRestored, IsRestored-trans, ram_read_bytes-IsRestored, ram_erase-IsRestored,
  ram_page_program-IsRestored,
}

module _ (ctrl_at data_at : ℕ → ℕ) where
  and_ok-IsRestored :
      (f : Flash) (p : Flash × Result (Unit {0}) FlashError)
      (step : Flash → Flash × Result (Unit {0}) FlashError)
      → IsRestored f p.0
      → ((g : Flash) → g.flash_ctrl ≡ 0 → IsRestored g (step g).0)
      → IsRestored f (and_ok p step).0
  and_ok-IsRestored f (g, ok done) step r h = IsRestored-trans r (h g r.closed)
  and_ok-IsRestored f (g, err e) step r h = r

  untouched : (f : Flash) → f.flash_ctrl ≡ 0 → IsRestored f f
  untouched f e = record { configuration = refl; closed = e }

  read_at-IsRestored :
      (f : Flash) (address : Result ℕ FlashError) (count : ℕ)
      → f.flash_ctrl ≡ 0
      → IsRestored f (read_at ctrl_at data_at address count f).0
  read_at-IsRestored f (err e) count closed = untouched f closed
  read_at-IsRestored f (ok address) count closed =
      ram_read_bytes-IsRestored ctrl_at data_at f address count

  erase_at-IsRestored :
      (f : Flash) (address : Result ℕ FlashError)
      → f.flash_ctrl ≡ 0
      → IsRestored f (erase_at ctrl_at data_at address f).0
  erase_at-IsRestored f (err e) closed = untouched f closed
  erase_at-IsRestored f (ok address) closed = ram_erase-IsRestored ctrl_at data_at f address

  program_at-IsRestored :
      (f : Flash) (address : Result ℕ FlashError) (octets : List ℕ)
      → f.flash_ctrl ≡ 0
      → IsRestored f (program_at ctrl_at data_at address octets f).0
  program_at-IsRestored f (err e) octets closed = untouched f closed
  program_at-IsRestored f (ok address) octets closed =
      ram_page_program-IsRestored ctrl_at data_at f address octets

  erase_blocks-IsRestored :
      (blocks offset : ℕ) (f : Flash)
      → f.flash_ctrl ≡ 0
      → IsRestored f (erase_blocks ctrl_at data_at blocks offset f).0
  unfolding erase_blocks
  erase_blocks-IsRestored zero offset f closed = untouched f closed
  erase_blocks-IsRestored (suc blocks) offset f closed =
      and_ok-IsRestored f (erase_at ctrl_at data_at (physical offset) f)
        (erase_blocks ctrl_at data_at blocks (offset + erase_size))
        (erase_at-IsRestored f (physical offset) closed)
        λ g c. erase_blocks-IsRestored blocks (offset + erase_size) g c

  -- A result that leaves the flash restored.
  abbrev pub Returns : Flash → Option (Flash × Result (Unit {0}) FlashError) → Type 0
  Returns f none = ⊥
  Returns f (some (g, result)) = IsRestored f g

  Returns-trans :
      (f g : Flash) (o : Option (Flash × Result (Unit {0}) FlashError))
      → IsRestored f g
      → Returns g o
      → Returns f o
  Returns-trans f g (some (h, result)) r s = IsRestored-trans r s
  Returns-trans f g none r s = s

  programmed-Returns :
      (f : Flash) (rest : Flash → Option (Flash × Result (Unit {0}) FlashError))
      (p : Flash × Result (Unit {0}) FlashError)
      → IsRestored f p.0
      → ((g : Flash) → g.flash_ctrl ≡ 0 → Returns g (rest g))
      → Returns f (programmed ctrl_at data_at rest p)
  programmed-Returns f rest (g, ok done) r h = Returns-trans f g (rest g) r (h g r.closed)
  programmed-Returns f rest (g, err e) r h = r

  write_rounds-Returns :
      (fuel address : ℕ) (octets : List ℕ) (f : Flash)
      → length octets ≤ fuel
      → f.flash_ctrl ≡ 0
      → Returns f (write_rounds ctrl_at data_at fuel address octets f)
  unfolding write_rounds
  write_rounds-Returns fuel address [] f le closed = untouched f closed
  write_rounds-Returns zero address (octet ∷ octets) f le closed = absurd (omega (arith, le))
  write_rounds-Returns (suc fuel) address (octet ∷ octets) f le closed =
      let count = program_count address (octet ∷ octets) in
      programmed-Returns f
        (write_rounds ctrl_at data_at fuel (address + count) (drop count (octet ∷ octets)))
        (program_at ctrl_at data_at (physical address) (take count (octet ∷ octets)) f)
        (program_at-IsRestored f (physical address) (take count (octet ∷ octets)) closed)
        λ g c.
          write_rounds-Returns fuel (address + count) (drop count (octet ∷ octets)) g
            (omega (arith, le, length-drop count (octet ∷ octets))) c

  -- Whatever the hardware answers, a read, an erasure and a write end, the write within one round for
  -- each octet, and on every path, an error or a timeout included, the configuration is that of
  -- before, with its write protection, and no transaction is left open.
  pub operations_restore :
      (offset count from to : ℕ) (octets : List ℕ) (f : Flash)
      → f.flash_ctrl ≡ 0
      → IsRestored f (read ctrl_at data_at offset count f).0
        × IsRestored f (erase ctrl_at data_at from to f).0
        × Returns f (write ctrl_at data_at offset octets f)
  unfolding read erase write
  operations_restore offset count from to octets f closed = (
    if_both (λ (p : Flash × Result (List ℕ) FlashError). IsRestored f p.0)
        (ltb capacity (offset + count)) (untouched f closed)
        (if_both (λ (p : Flash × Result (List ℕ) FlashError). IsRestored f p.0) (count == 0)
          (untouched f closed) (read_at-IsRestored f (physical offset) count closed)),
    if_both (λ (p : Flash × Result (Unit {0}) FlashError). IsRestored f p.0)
        (bit_and from (erase_size - 1) != 0 || bit_and to (erase_size - 1) != 0)
        (untouched f closed)
        (if_both (λ (p : Flash × Result (Unit {0}) FlashError). IsRestored f p.0)
          (leb to from || ltb capacity to) (untouched f closed)
          (erase_blocks-IsRestored ((to - from) / erase_size) from f closed)),
    if_both (Returns f) (ltb capacity (offset + length octets)) (untouched f closed)
        (write_rounds-Returns (length octets) offset octets f (omega arith) closed),
  )
