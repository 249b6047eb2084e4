-- ===== src/Hal/Uart.antt =====
-- The UART driver, src/uart.rs: the choice of its dividers, the values of its registers, and what it
-- reads. A register that the hardware changes is an argument: one value for each read.
pub mod Baud
pub mod Reading
use ch58x_hal.Base.{
  ℕ, zero, suc, ◌+◌, ◌-◌, ◌*◌, ◌/◌, Bool, true, false, ◌&&◌, ◌||◌, Option, none, some,
}
use ch58x_hal.Base.{List, [], ◌∷◌, ltb, leb, ◌==◌, if◌then◌else◌, bit_or, ◌<<<◌, u8, u16, u32}
use ch58x_hal.Base.{for_range, Result, ok, err, take, length, min}

pub data DataBits : Type 0 where
  five six seven eight : DataBits

pub data StopBits : Type 0 where
  one two : StopBits

pub data Parity : Type 0 where
  no_parity odd even mark space : Parity

pub record Config : Type 0 where
  pub baudrate : ℕ
  pub data_bits : DataBits
  pub stop_bits : StopBits
  pub parity : Parity
  pub max_error_ppm : ℕ

pub data ConfigError : Type 0 where
  baudrate_zero baudrate_out_of_range : ConfigError
  baudrate_error_too_high : ℕ → ℕ → ConfigError

-- `Error`.
pub data LineError : Type 0 where
  overrun parity_error framing break_error : LineError

pub record BaudDividers : Type 0 where
  pub predivider : ℕ
  pub latch : ℕ
  pub actual : ℕ
  pub error_ppm : ℕ

-- `abs_diff`.
abbrev pub distance : ℕ → ℕ → ℕ
distance a b = (a - b) + (b - a)

abbrev pub rounded_latch : ℕ → ℕ → ℕ → ℕ
rounded_latch clock_hz baudrate predivider =
    let denominator = 8 * predivider * baudrate in (clock_hz + denominator / 2) / denominator

abbrev pub dividers : ℕ → ℕ → ℕ → ℕ → BaudDividers
dividers clock_hz baudrate predivider rounded =
    let actual = u32 (clock_hz / (8 * predivider * rounded)) in
    record {
      predivider = if predivider == 128 then 0 else u8 predivider;
      latch = u16 rounded;
      actual = actual;
      error_ppm = u32 (distance actual baudrate * 1_000_000 / baudrate);
    }

-- What a round of the loop tries.
unfoldable pub candidate : ℕ → ℕ → ℕ → Option BaudDividers
candidate clock_hz baudrate predivider =
    let rounded = rounded_latch clock_hz baudrate predivider in
    if leb 1 rounded && leb rounded 65_535
    then some (dividers clock_hz baudrate predivider rounded)
    else none

-- `best.is_none() || error_ppm < best.unwrap().error_ppm`, and the store.
abbrev pub better : Option BaudDividers → Option BaudDividers → Option BaudDividers
better none best = best
better (some c) none = some c
better (some c) (some b) = if ltb c.error_ppm b.error_ppm then some c else some b

-- The loop runs over the predividers 1 to 128.
unfoldable pub select_baud : ℕ → ℕ → Option BaudDividers
unfolding candidate
select_baud clock_hz baudrate =
    if clock_hz == 0 || baudrate == 0
    then none
    else for_range 128 1 (λ p best. better (candidate clock_hz baudrate p) best) none

abbrev pub data_bits_value : DataBits → ℕ
data_bits_value five = 0
data_bits_value six = 1
data_bits_value seven = 2
data_bits_value eight = 3

abbrev pub stop_bits_value : StopBits → ℕ
stop_bits_value one = 0
stop_bits_value two = 1 <<< 2

abbrev pub parity_bits : Parity → ℕ
parity_bits no_parity = 0
parity_bits odd = 1 <<< 3
parity_bits even = bit_or (1 <<< 3) (1 <<< 4)
parity_bits mark = bit_or (1 <<< 3) (2 <<< 4)
parity_bits space = bit_or (1 <<< 3) (3 <<< 4)

unfoldable pub line_control : Config → ℕ
line_control config =
    bit_or (bit_or (data_bits_value config.data_bits) (stop_bits_value config.stop_bits))
      (parity_bits config.parity)

abbrev pub admitted : Config → Option BaudDividers → Result (BaudDividers × ℕ) ConfigError
admitted config none = err baudrate_out_of_range
admitted config (some baud) =
    if ltb config.max_error_ppm baud.error_ppm
    then err (baudrate_error_too_high baud.actual baud.error_ppm)
    else ok (baud, line_control config)

-- The dividers and the line control that are written.
unfoldable pub configure : ℕ → Config → Result (BaudDividers × ℕ) ConfigError
unfolding select_baud line_control
configure hclk_hz config =
    if config.baudrate == 0
    then err baudrate_zero
    else admitted config (select_baud hclk_hz config.baudrate)

-- The line status with the octet at the head of the FIFO.
pub record Status : Type 0 where
  pub over_err : Bool
  pub par_err : Bool
  pub frame_err : Bool
  pub break_err : Bool
  pub data_rdy : Bool
  pub head : ℕ

abbrev pub line_error : Status → Option LineError
line_error s =
    if s.over_err
    then some overrun
    else if s.par_err
    then some parity_error
    else if s.frame_err
    then some framing
    else if s.break_err
    then some break_error
    else none

abbrev pub received : Status → Option LineError → Result (Option ℕ) LineError
received s (some e) = err e
received s none = ok (if s.data_rdy then some s.head else none)

-- The octet at the head is taken wherever it is ready, also behind an error.
unfoldable pub receive_byte : Status → Result (Option ℕ) LineError
receive_byte s = received s (line_error s)

abbrev pub prepended : ℕ → Result (List ℕ) LineError → Result (List ℕ) LineError
prepended octet (ok octets) = ok (octet ∷ octets)
prepended octet (err e) = err e

abbrev pub stored :
    (List Status → Result (List ℕ) LineError)
    → List Status
    → Result (Option ℕ) LineError
    → Result (List ℕ) LineError
stored rest line (err e) = err e
stored rest line (ok none) = ok []
stored rest line (ok (some octet)) = prepended octet (rest line)

-- `room` is what is left of the buffer, and the result what is stored in it, with the count as its
-- length. The line holds the status of each read; behind it nothing is ready.
unfoldable pub read_available : ℕ → List Status → Result (List ℕ) LineError
unfolding receive_byte
read_available zero line = ok []
read_available (suc room) [] = ok []
read_available (suc room) (s ∷ line) = stored (read_available room) line (receive_byte s)

-- The octets that `try_write` puts into the FIFO, that holds `tfc` of them.
unfoldable pub try_write : ℕ → List ℕ → List ℕ
try_write tfc buffer = take (min (8 - tfc) (length buffer)) buffer
