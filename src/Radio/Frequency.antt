-- ===== src/Radio/Frequency.antt =====
-- The channel mapping of channel.rs: every index that `new` accepts has its own centre frequency.
use ch58x_hal.Base.{ℕ, ◌+◌, ◌*◌, ◌<◌, ◌≡◌, arith, some, ok, leb, ◌==◌, if◌then◌else◌}
use ch58x_hal.Radio.{Channel, new, frequency_mhz}

-- The RF channel number: the advertising channels 37, 38 and 39 stand at 0, 12 and 39, and the
-- data channels fill the rest in order.
pub rf_channel : ℕ → ℕ
rf_channel i =
    if i == 37
    then 0
    else if i == 38
    then 12
    else if i == 39
    then 39
    else if leb i 10
    then i + 1
    else i + 2

-- On every channel that `new` makes `frequency_mhz` does not reach its `unreachable!()`, and gives
-- the centre of one of 40 RF channels spaced by 2 MHz, another one for every index.
pub frequency_mhz-rf_channel :
    (i j : ℕ) (c d : Channel)
    → new i ≡ ok c
    → new j ≡ ok d
    → (frequency_mhz c ≡ some (2402 + 2 * rf_channel i))
      × (rf_channel i < 40)
      × (rf_channel i ≡ rf_channel j → i ≡ j)
unfolding new frequency_mhz rf_channel
frequency_mhz-rf_channel i j c d e f = (mhz, range, ground arith)
  where
    mhz : frequency_mhz c ≡ some (2402 + 2 * rf_channel i)
    mhz = ground arith

    range : rf_channel i < 40
    range = ground arith
