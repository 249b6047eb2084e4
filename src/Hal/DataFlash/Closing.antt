-- ===== src/Hal/DataFlash/Closing.antt =====
-- A transaction of the data flash is closed on every path, and the configuration restored.
use ch58x_hal.Base.{ℕ, zero, suc, ◌≡◌, refl, ◌∙◌}
use ch58x_hal.Base.{Bool, true, false, Option, none, some, List}
use ch58x_hal.Base.{Result}
use ch58x_hal.Hal.DataFlash.Transaction.{
  Flash, FlashError, and_also, prepared, finished, read_finished, ram_begin, ram_end, ram_abort,
  ram_configure, ram_restore, ram_fail, ram_prepare, ram_address, ram_wait_interface,
  ram_wait_ready_active, fetched, judged, second_fetched, first_fetched, poll_status, polled,
  ready_rounds, read_octets, octets_read, addressed, ram_read_bytes, erase_command, ram_erase,
  output_all, program_command, ram_page_program,
}

-- The configuration is that of before, with its write protection, and no transaction is open.
pub record IsRestored (f g : Flash) : Type 0 where
  pub configuration : g.global_config ≡ f.global_config
  pub closed : g.flash_ctrl ≡ 0

pub IsRestored-trans : {f g h : Flash} → IsRestored f g → IsRestored g h → IsRestored f h
IsRestored-trans a b = record {
  configuration = b.configuration ∙ a.configuration;
  closed = b.closed;
}

-- A step that succeeds has closed the transaction.
abbrev Closes : Flash × Bool → Type 0
Closes (f, true) = f.flash_ctrl ≡ 0
Closes (f, false) = Unit {0}

abbrev ClosesSome : Flash × Option Bool → Type 0
ClosesSome (f, some ready) = f.flash_ctrl ≡ 0
ClosesSome (f, none) = Unit {0}

and_also-Closes :
    (p : Flash × Bool) (step : Flash → Flash × Bool)
    → ((f : Flash) → Closes (step f))
    → Closes (and_also p step)
and_also-Closes (f, true) step h = h f
and_also-Closes (f, false) step h = tt

module _ (ctrl_at data_at : ℕ → ℕ) where
  ram_end-closed : (f : Flash) → (ram_end ctrl_at data_at f).0.flash_ctrl ≡ 0
  unfolding ram_end ram_abort
  ram_end-closed f = refl

  judged-ClosesSome :
      (first second : ℕ) (p : Flash × Bool)
      → p.0.flash_ctrl ≡ 0
      → ClosesSome (judged ctrl_at data_at first second p)
  judged-ClosesSome first second (f, true) e = e
  judged-ClosesSome first second (f, false) e = tt

  second-ClosesSome :
      (first : ℕ) (p : Flash × Option ℕ) → ClosesSome (second_fetched ctrl_at data_at first p)
  second-ClosesSome first (f, none) = tt
  second-ClosesSome first (f, some second) =
      judged-ClosesSome first second (ram_end ctrl_at data_at f) (ram_end-closed f)

  first-ClosesSome : (p : Flash × Option ℕ) → ClosesSome (first_fetched ctrl_at data_at p)
  first-ClosesSome (f, none) = tt
  first-ClosesSome (f, some first) = second-ClosesSome first _

  polled-Closes :
      (rest : Flash → Flash × Bool) (p : Flash × Option Bool)
      → ((f : Flash) → Closes (rest f))
      → ClosesSome p
      → Closes (polled ctrl_at data_at rest p)
  polled-Closes rest (f, none) h e = tt
  polled-Closes rest (f, some true) h e = e
  polled-Closes rest (f, some false) h e = h f

  ready_rounds-Closes : (polls : ℕ) (f : Flash) → Closes (ready_rounds ctrl_at data_at polls f)
  unfolding ready_rounds poll_status
  ready_rounds-Closes zero f = tt
  ready_rounds-Closes (suc polls) f =
      polled-Closes (ready_rounds ctrl_at data_at polls) (poll_status ctrl_at data_at f)
        (ready_rounds-Closes polls)
        (first-ClosesSome
          (fetched ctrl_at data_at (ram_wait_interface ctrl_at data_at (ram_begin 0x05 f))))

  waited-Closes : (f : Flash) → Closes (ram_wait_ready_active ctrl_at data_at f)
  unfolding ram_wait_ready_active
  waited-Closes f = ready_rounds-Closes _ f

  ended-Closes :
      (f : Flash)
      → Closes (and_also (ram_end ctrl_at data_at f) (ram_wait_ready_active ctrl_at data_at))
  ended-Closes f = and_also-Closes (ram_end ctrl_at data_at f) _ waited-Closes

  erase_command-Closes :
      (address : ℕ) (f : Flash) → Closes (erase_command ctrl_at data_at address f)
  erase_command-Closes address f =
      and_also-Closes (ram_end ctrl_at data_at (ram_begin 0x06 f)) _
        λ g. and_also-Closes (ram_address ctrl_at data_at 0x81 address false g) _ ended-Closes

  program_command-Closes :
      (address : ℕ) (octets : List ℕ) (f : Flash)
      → Closes (program_command ctrl_at data_at address octets f)
  program_command-Closes address octets f =
      and_also-Closes (ram_end ctrl_at data_at (ram_begin 0x06 f)) _ λ g.
        and_also-Closes (ram_address ctrl_at data_at 0x02 address false g) _
          λ h. and_also-Closes (output_all ctrl_at data_at octets h) _ ended-Closes

  module _ (f : Flash) where
    finished-IsRestored :
        (p : Flash × Bool) → Closes p → IsRestored f (finished f.global_config p).0
    unfolding ram_fail ram_restore ram_abort
    finished-IsRestored (g, true) e = record { configuration = refl; closed = e }
    finished-IsRestored (g, false) e = record { configuration = refl; closed = refl }

    read_finished-IsRestored :
        (octets : List ℕ) (p : Flash × Bool)
        → p.0.flash_ctrl ≡ 0
        → IsRestored f (read_finished f.global_config octets p).0
    unfolding ram_restore
    read_finished-IsRestored octets (g, true) e = record { configuration = refl; closed = e }
    read_finished-IsRestored octets (g, false) e = record { configuration = refl; closed = e }

    prepared-IsRestored {ℓ} :
        {A : Type ℓ} (p : Flash × Bool) (step : Flash → Flash × Result A FlashError)
        → p.0.flash_ctrl ≡ 0
        → ((g : Flash) → IsRestored f (step g).0)
        → IsRestored f (prepared f.global_config p step).0
    unfolding ram_restore
    prepared-IsRestored (g, true) step e h = h g
    prepared-IsRestored (g, false) step e h = record { configuration = refl; closed = e }

    octets_read-IsRestored :
        (p : Flash × Option (List ℕ))
        → IsRestored f (octets_read ctrl_at data_at f.global_config p).0
    unfolding ram_fail ram_restore ram_abort
    octets_read-IsRestored (g, none) = record { configuration = refl; closed = refl }
    octets_read-IsRestored (g, some octets) =
        read_finished-IsRestored octets (ram_end ctrl_at data_at g) (ram_end-closed g)

    addressed-IsRestored :
        (count : ℕ) (p : Flash × Bool)
        → IsRestored f (addressed ctrl_at data_at f.global_config count p).0
    unfolding ram_fail ram_restore ram_abort
    addressed-IsRestored count (g, false) = record { configuration = refl; closed = refl }
    addressed-IsRestored count (g, true) =
        octets_read-IsRestored (read_octets ctrl_at data_at count g)

    prepare-closed : (g : Flash) → (ram_prepare ctrl_at data_at g).0.flash_ctrl ≡ 0
    unfolding ram_prepare
    prepare-closed g = ram_end-closed _

    pub ram_read_bytes-IsRestored :
        (address count : ℕ) → IsRestored f (ram_read_bytes ctrl_at data_at address count f).0
    unfolding ram_read_bytes ram_configure
    ram_read_bytes-IsRestored address count =
        prepared-IsRestored (ram_prepare ctrl_at data_at (ram_configure false f).0) _
          (prepare-closed _)
          λ h. addressed-IsRestored count (ram_address ctrl_at data_at 0x0b address true h)

    pub ram_erase-IsRestored : (address : ℕ) → IsRestored f (ram_erase ctrl_at data_at address f).0
    unfolding ram_erase ram_configure
    ram_erase-IsRestored address =
        prepared-IsRestored (ram_prepare ctrl_at data_at (ram_configure true f).0) _
          (prepare-closed _)
          λ h.
            finished-IsRestored (erase_command ctrl_at data_at address h)
              (erase_command-Closes address h)

    pub ram_page_program-IsRestored :
        (address : ℕ) (octets : List ℕ)
        → IsRestored f (ram_page_program ctrl_at data_at address octets f).0
    unfolding ram_page_program ram_configure
    ram_page_program-IsRestored address octets =
        prepared-IsRestored (ram_prepare ctrl_at data_at (ram_configure true f).0) _
          (prepare-closed _)
          λ h.
            finished-IsRestored (program_command ctrl_at data_at address octets h)
              (program_command-Closes address octets h)
