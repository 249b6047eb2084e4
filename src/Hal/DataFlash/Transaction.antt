-- ===== src/Hal/DataFlash/Transaction.antt =====
-- The transactions of the data flash: src/dataflash.rs and src/dataflash_protocol.rs. The global
-- configuration and the control register keep what is written; what a read of the control or the
-- data register gives is a parameter, by the number of reads before it. The writes that unlock the
-- configuration leave nothing behind.
use ch58x_hal.Base.{ℕ, zero, suc, ◌+◌, ◌*◌, Bool, true, false, Option, none, some}
use mathlib.Core.Option
use ch58x_hal.Base.{List, [], ◌∷◌, ◌++◌, ◌==◌}
use ch58x_hal.Base.{if◌then◌else◌, bit_and, bit_or, ◌>>>◌, u8, Result, ok, err}

abbrev pub data_flash_base : ℕ
data_flash_base = 0x70000

abbrev pub data_flash_alias : ℕ
data_flash_alias = 0x80000

abbrev pub exposed_offset : ℕ
exposed_offset = 0x6000

abbrev pub capacity : ℕ
capacity = 8 * 1024

abbrev pub erase_size : ℕ
erase_size = 256

abbrev pub page_size : ℕ
page_size = 256

abbrev pub max_status_polls : ℕ
max_status_polls = 0x80000

pub data FlashError : Type 0 where
  out_of_bounds not_aligned timeout program : FlashError

-- The octets that the data register was written, in order, and the number of reads so far.
pub record Flash : Type 0 where
  pub global_config : ℕ
  pub flash_ctrl : ℕ
  pub sent : List ℕ
  pub reads : ℕ

abbrev pub counted : Flash → Flash
counted f = record f { reads = f.reads + 1 }

abbrev pub send : ℕ → Flash → Flash
send octet f = record f { sent = f.sent ++ (octet ∷ []) }

-- `&&` on steps that say whether they have succeeded.
abbrev pub and_also : Flash × Bool → (Flash → Flash × Bool) → Flash × Bool
and_also (f, true) step = step f
and_also (f, false) step = (f, false)

unfoldable pub ram_begin : ℕ → Flash → Flash
ram_begin command f = send command (record f { flash_ctrl = 5 })

unfoldable pub ram_abort : Flash → Flash
ram_abort f = record f { flash_ctrl = 0 }

unfoldable pub ram_configure : Bool → Flash → Flash × ℕ
ram_configure write f = (
  record f { global_config = bit_or f.global_config (if write then 0xe0 else 0x20) },
  f.global_config,
)

unfoldable pub ram_restore : ℕ → Flash → Flash
ram_restore original f = record f { global_config = original }

unfoldable pub ram_fail : ℕ → Flash → Flash
unfolding ram_abort ram_restore
ram_fail original f = ram_restore original (ram_abort f)

unfoldable pub status_ready : ℕ → ℕ → Bool
status_ready first second = bit_and second 1 == 0

-- What follows `ram_prepare`.
abbrev pub prepared {ℓ} :
    {A : Type ℓ}
    → ℕ
    → Flash × Bool
    → (Flash → Flash × Result A FlashError)
    → Flash × Result A FlashError
prepared original (f, false) step = (ram_restore original f, err timeout)
prepared original (f, true) step = step f

-- The end of a command: `ram_fail` wherever it has failed.
abbrev pub finished : ℕ → Flash × Bool → Flash × Result (Unit {0}) FlashError
finished original (f, false) = (ram_fail original f, err timeout)
finished original (f, true) = (ram_restore original f, ok tt)

-- The end of a read: a failed `ram_end` is not aborted again.
abbrev pub read_finished : ℕ → List ℕ → Flash × Bool → Flash × Result (List ℕ) FlashError
read_finished original octets (f, false) = (ram_restore original f, err timeout)
read_finished original octets (f, true) = (ram_restore original f, ok octets)

module _ (ctrl_at data_at : ℕ → ℕ) where
  unfoldable pub wait_rounds : ℕ → Flash → Flash × Bool
  wait_rounds zero f = (f, false)
  wait_rounds (suc polls) f =
      let rest = wait_rounds polls (counted f) in
      if bit_and (ctrl_at f.reads) 0x80 == 0 then (counted f, true) else rest

  unfoldable pub ram_wait_interface : Flash → Flash × Bool
  ram_wait_interface f = wait_rounds max_status_polls f

  unfoldable pub ram_output : ℕ → Flash → Flash × Bool
  ram_output octet f = and_also (ram_wait_interface f) λ g. (send octet g, true)

  unfoldable pub ram_address : ℕ → ℕ → Bool → Flash → Flash × Bool
  ram_address command address read_dummy f =
      and_also (ram_output (u8 (address >>> 16)) (ram_begin command f)) λ g.
        and_also (ram_output (u8 (address >>> 8)) g) λ g.
          and_also (ram_output (u8 address) g)
            λ g. if read_dummy then and_also (ram_output 0 g) (ram_output 0) else (g, true)

  unfoldable pub ram_end : Flash → Flash × Bool
  unfolding ram_abort
  ram_end f = let (g, ready) = ram_wait_interface f in (ram_abort g, ready)

  unfoldable pub ram_prepare : Flash → Flash × Bool
  ram_prepare f = ram_end (ram_begin 0xff (record f { flash_ctrl = 4 }))

  -- A read of the data register once the interface is ready.
  abbrev pub fetched : Flash × Bool → Flash × Option ℕ
  fetched (f, false) = (f, none)
  fetched (f, true) = (counted f, some (data_at f.reads))

  -- Whether the status that a poll has read is ready; nothing if the poll has failed.
  abbrev pub judged : ℕ → ℕ → Flash × Bool → Flash × Option Bool
  judged first second (f, false) = (f, none)
  judged first second (f, true) = (f, some (status_ready first second))

  abbrev pub second_fetched : ℕ → Flash × Option ℕ → Flash × Option Bool
  second_fetched first (f, none) = (f, none)
  second_fetched first (f, some second) = judged first second (ram_end f)

  abbrev pub first_fetched : Flash × Option ℕ → Flash × Option Bool
  first_fetched (f, none) = (f, none)
  first_fetched (f, some first) = second_fetched first (fetched (ram_wait_interface f))

  -- A round of the loop over the status.
  unfoldable pub poll_status : Flash → Flash × Option Bool
  poll_status f = first_fetched (fetched (ram_wait_interface (ram_begin 0x05 f)))

  abbrev pub polled : (Flash → Flash × Bool) → Flash × Option Bool → Flash × Bool
  polled rest (f, none) = (f, false)
  polled rest (f, some true) = (f, true)
  polled rest (f, some false) = rest f

  unfoldable pub ready_rounds : ℕ → Flash → Flash × Bool
  ready_rounds zero f = (f, false)
  ready_rounds (suc polls) f = polled (ready_rounds polls) (poll_status f)

  unfoldable pub ram_wait_ready_active : Flash → Flash × Bool
  ram_wait_ready_active f = ready_rounds max_status_polls f

  abbrev pub fetched_more :
      (Flash → Flash × Option (List ℕ)) → Flash × Option ℕ → Flash × Option (List ℕ)
  fetched_more rest (f, none) = (f, none)
  fetched_more rest (f, some octet) = let (g, octets) = rest f in (g, Option.map (◌∷◌ octet) octets)

  -- The loop of `ram_read_bytes`.
  unfoldable pub read_octets : ℕ → Flash → Flash × Option (List ℕ)
  read_octets zero f = (f, some [])
  read_octets (suc count) f = fetched_more (read_octets count) (fetched (ram_wait_interface f))

  abbrev pub octets_read : ℕ → Flash × Option (List ℕ) → Flash × Result (List ℕ) FlashError
  octets_read original (f, none) = (ram_fail original f, err timeout)
  octets_read original (f, some octets) = read_finished original octets (ram_end f)

  abbrev pub addressed : ℕ → ℕ → Flash × Bool → Flash × Result (List ℕ) FlashError
  addressed original count (f, false) = (ram_fail original f, err timeout)
  addressed original count (f, true) = octets_read original (read_octets count f)

  unfoldable pub ram_read_bytes : ℕ → ℕ → Flash → Flash × Result (List ℕ) FlashError
  unfolding ram_configure
  ram_read_bytes address count f =
      let (g, original) = ram_configure false f in
      prepared original (ram_prepare g)
        λ h. addressed original count (ram_address 0x0b address true h)

  abbrev pub erase_command : ℕ → Flash → Flash × Bool
  erase_command address f = and_also (ram_end (ram_begin 0x06 f)) λ g.
      and_also (ram_address 0x81 address false g) λ g. and_also (ram_end g) ram_wait_ready_active

  unfoldable pub ram_erase : ℕ → Flash → Flash × Result (Unit {0}) FlashError
  unfolding ram_configure
  ram_erase address f =
      let (g, original) = ram_configure true f in
      prepared original (ram_prepare g) λ h. finished original (erase_command address h)

  abbrev pub output_all : List ℕ → Flash → Flash × Bool
  output_all [] f = (f, true)
  output_all (octet ∷ octets) f = and_also (ram_output octet f) (output_all octets)

  abbrev pub program_command : ℕ → List ℕ → Flash → Flash × Bool
  program_command address octets f = and_also (ram_end (ram_begin 0x06 f)) λ g.
      and_also (ram_address 0x02 address false g)
        λ g. and_also (output_all octets g) λ g. and_also (ram_end g) ram_wait_ready_active

  unfoldable pub ram_page_program : ℕ → List ℕ → Flash → Flash × Result (Unit {0}) FlashError
  unfolding ram_configure
  ram_page_program address octets f =
      let (g, original) = ram_configure true f in
      prepared original (ram_prepare g) λ h. finished original (program_command address octets h)
