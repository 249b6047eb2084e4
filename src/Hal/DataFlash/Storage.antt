-- ===== src/Hal/DataFlash/Storage.antt =====
-- The operations of the storage traits: `DataFlash` in src/dataflash.rs.
use ch58x_hal.Base.{ℕ, zero, suc, ◌+◌, ◌-◌, ◌/◌, ◌%◌, ◌||◌, Option, none, some}
use ch58x_hal.Base.{List, [], ◌∷◌, length, take, drop, min, ltb, leb, ◌==◌, ◌!=◌}
use ch58x_hal.Base.{if◌then◌else◌, bit_and, bit_or, Result, ok, err}
use ch58x_hal.Hal.DataFlash.Transaction.{
  data_flash_base, data_flash_alias, exposed_offset, capacity, erase_size, page_size, FlashError,
  out_of_bounds, not_aligned, Flash, ram_read_bytes, ram_erase, ram_page_program,
}

unfoldable pub physical : ℕ → Result ℕ FlashError
physical offset =
    if leb capacity offset
    then err out_of_bounds
    else ok (bit_or data_flash_alias (data_flash_base + exposed_offset + offset))

abbrev pub and_ok :
    Flash × Result (Unit {0}) FlashError
    → (Flash → Flash × Result (Unit {0}) FlashError)
    → Flash × Result (Unit {0}) FlashError
and_ok (f, err e) step = (f, err e)
and_ok (f, ok done) step = step f

-- The octets of the next page program: up to the end of the page, and at most 32.
abbrev pub program_count : ℕ → List ℕ → ℕ
program_count address octets = min (min (page_size - address % page_size) (length octets)) 32

module _ (ctrl_at data_at : ℕ → ℕ) where
  abbrev pub read_at : Result ℕ FlashError → ℕ → Flash → Flash × Result (List ℕ) FlashError
  read_at (err e) count f = (f, err e)
  read_at (ok address) count f = ram_read_bytes ctrl_at data_at address count f

  -- `count` is the length of the buffer.
  unfoldable pub read : ℕ → ℕ → Flash → Flash × Result (List ℕ) FlashError
  read offset count f =
      if ltb capacity (offset + count)
      then (f, err out_of_bounds)
      else if count == 0
      then (f, ok [])
      else read_at (physical offset) count f

  abbrev pub erase_at : Result ℕ FlashError → Flash → Flash × Result (Unit {0}) FlashError
  erase_at (err e) f = (f, err e)
  erase_at (ok address) f = ram_erase ctrl_at data_at address f

  -- The loop over the range, by the blocks that are left.
  unfoldable pub erase_blocks : ℕ → ℕ → Flash → Flash × Result (Unit {0}) FlashError
  erase_blocks zero offset f = (f, ok tt)
  erase_blocks (suc blocks) offset f =
      and_ok (erase_at (physical offset) f) (erase_blocks blocks (offset + erase_size))

  unfoldable pub erase : ℕ → ℕ → Flash → Flash × Result (Unit {0}) FlashError
  erase from to f =
      if bit_and from (erase_size - 1) != 0 || bit_and to (erase_size - 1) != 0
      then (f, err not_aligned)
      else if leb to from || ltb capacity to
      then (f, err out_of_bounds)
      else erase_blocks ((to - from) / erase_size) from f

  abbrev pub program_at :
      Result ℕ FlashError → List ℕ → Flash → Flash × Result (Unit {0}) FlashError
  program_at (err e) octets f = (f, err e)
  program_at (ok address) octets f = ram_page_program ctrl_at data_at address octets f

  abbrev pub programmed :
      (Flash → Option (Flash × Result (Unit {0}) FlashError))
      → Flash × Result (Unit {0}) FlashError
      → Option (Flash × Result (Unit {0}) FlashError)
  programmed rest (f, err e) = some (f, err e)
  programmed rest (f, ok done) = rest f

  -- The loop over the data that is left; `none` would be a lack of fuel.
  unfoldable pub write_rounds :
      ℕ → ℕ → List ℕ → Flash → Option (Flash × Result (Unit {0}) FlashError)
  write_rounds fuel address [] f = some (f, ok tt)
  write_rounds zero address (octet ∷ octets) f = none
  write_rounds (suc fuel) address (octet ∷ octets) f =
      let count = program_count address (octet ∷ octets) in
      programmed (write_rounds fuel (address + count) (drop count (octet ∷ octets)))
        (program_at (physical address) (take count (octet ∷ octets)) f)

  unfoldable pub write : ℕ → List ℕ → Flash → Option (Flash × Result (Unit {0}) FlashError)
  write offset octets f =
      if ltb capacity (offset + length octets)
      then some (f, err out_of_bounds)
      else write_rounds (length octets) offset octets f
