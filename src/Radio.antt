-- ===== src/Radio.antt =====
-- crates/ble-controller/src/lib.rs and channel.rs: the error type of the radio contract, and the
-- channel index with its frequency.
pub mod Frequency
pub mod Dma
use ch58x_hal.Base.{ℕ, ◌+◌, ◌-◌, ◌*◌, Option, none, some, leb, ◌==◌, if◌then◌else◌, Result, ok, err}

pub data Error : Type 0 where
  busy timeout invalid_channel invalid_packet hardware : Error

pub record Channel : Type 0 where
  pub index : ℕ

unfoldable pub new : ℕ → Result Channel Error
new index = if leb index 39 then ok (record { index = index }) else err invalid_channel

-- The arms of the `match` in order; `none` is `unreachable!()`.
unfoldable pub frequency_mhz : Channel → Option ℕ
frequency_mhz c =
    if c.index == 37
    then some 2402
    else if c.index == 38
    then some 2426
    else if c.index == 39
    then some 2480
    else if leb c.index 10
    then some (2404 + c.index * 2)
    else if leb c.index 36
    then some (2428 + (c.index - 11) * 2)
    else none
