-- ===== src/Examples/Hal.antt =====
-- The peripherals on concrete values.
use ch58x_hal.Base.{ℕ, ◌≡◌, refl, arith, true, false, some, List, [], ◌∷◌, err}
use ch58x_hal.Hal.Uart.{
  BaudDividers, Status, framing, dividers, candidate, select_baud, read_available, receive_byte,
}
use ch58x_hal.Hal.DataFlash.Transaction.{Flash}
use ch58x_hal.Hal.DataFlash.Storage
use ch58x_hal.Hal.DataFlash.Closing.{IsRestored}
use ch58x_hal.Hal.DataFlash.Restoring.{Returns, operations_restore}
use ch58x_hal.Hal.DataFlash.Programs.{Program, IsPlan, run, write_programs}
use ch58x_hal.Hal.Uart.Baud.{IsBest, select_baud-IsBest}
use ch58x_hal.Hal.Uart.Reading.{Reads, read_available_takes}

select_baud-IsBest_example :
    IsBest (candidate 60_000_000 115_200) 129 (select_baud 60_000_000 115_200)
select_baud-IsBest_example = select_baud-IsBest 60_000_000 115_200 (omega arith) (omega arith)

abbrev standard : BaudDividers
standard = record { predivider = 1; latch = 65; actual = 115_384; error_ppm = 1_597 }

standard_selected : select_baud 60_000_000 115_200 ≡ some standard
unfolding select_baud candidate
standard_selected = refl

-- The latch is the rounded quotient, which is not always that of the nearest rate.
abbrev rounded : BaudDividers
rounded = record { predivider = 1; latch = 1_488; actual = 5_040; error_ppm = 396 }

abbrev nearer : BaudDividers
nearer = record { predivider = 1; latch = 1_487; actual = 5_043; error_ppm = 198 }

rounded_selected : select_baud 60_000_000 5_042 ≡ some rounded
unfolding select_baud candidate
rounded_selected = refl

nearer_possible : dividers 60_000_000 5_042 1 1_487 ≡ nearer
nearer_possible = refl

abbrev ready : ℕ → Status
ready octet = record {
  over_err = false;
  par_err = false;
  frame_err = false;
  break_err = false;
  data_rdy = true;
  head = octet;
}

-- Two octets, and then one with a framing error.
abbrev line : List Status
line = ready 0x68 ∷ ready 0x69 ∷ record (ready 0xff) { frame_err = true } ∷ []

line_fails : read_available 8 line ≡ err framing
unfolding read_available receive_byte
line_fails = refl

read_available_takes_example : (n : ℕ) × Reads 8 line n (read_available 8 line)
read_available_takes_example = read_available_takes 8 line

-- The hardware is always ready, and every status says so.
abbrev always_ready : ℕ → ℕ
always_ready n = 0

abbrev closed_flash : Flash
closed_flash = record { global_config = 0x01; flash_ctrl = 0; sent = []; reads = 0 }

operations_restore_example :
    IsRestored closed_flash (Storage.read always_ready always_ready 0xfe 4 closed_flash).0
    × IsRestored closed_flash (Storage.erase always_ready always_ready 0x100 0x300 closed_flash).0
    × Returns always_ready always_ready closed_flash
        (Storage.write always_ready always_ready 0xfe (1 ∷ 2 ∷ 3 ∷ []) closed_flash)
operations_restore_example =
    operations_restore always_ready always_ready 0xfe 4 0x100 0x300 (1 ∷ 2 ∷ 3 ∷ []) closed_flash
      refl

-- The write crosses the end of a page.
write_programs_example :
    (plan : List Program) × IsPlan 0xfe (1 ∷ 2 ∷ 3 ∷ []) plan
    × (Storage.write always_ready always_ready 0xfe (1 ∷ 2 ∷ 3 ∷ []) closed_flash
        ≡ some (run always_ready always_ready plan closed_flash))
write_programs_example =
    write_programs always_ready always_ready 0xfe (1 ∷ 2 ∷ 3 ∷ []) closed_flash (omega arith)
