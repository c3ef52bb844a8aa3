-- ===== src/Gpio/Probe.antt =====
-- How the driver comes to its banks, the constructor of `Imx_driver` in
-- src/drivers/gpio/imx/driver.h.
use genode_imx.Base.{
  ℕ, zero, suc, ◌+◌, Bool, false, not, leb, if◌then◌else◌, Option, none, some, List, [], ◌∷◌,
  replicate, set, update,
}
use genode_imx.Gpio.Bank.{max_pins, max_banks, low_level, Bank}
use genode_imx.Gpio.Driver.{Driver}

-- A device node of the platform, with the registers as the device has them at first, and with
-- what `_irq_enabled` holds before anything is written to it.
pub record Node : Type 0 where
  pub has_name : Bool
  pub io_mem_valid : Bool
  pub irq_low_valid : Bool
  pub irq_high_valid : Bool
  pub regs : Bank

-- The loop over `rounds` pins from pin `j` on.
unfoldable pub reset_pins : (rounds j : ℕ) → Bank → Bank
reset_pins zero j b = b
reset_pins (suc n) j b =
    reset_pins n (j + 1)
      (record b { int_conf = update b.int_conf j low_level; int_mask = update b.int_mask j false })

-- What writing all ones to `Int_stat` leaves in it is a matter of the hardware.
abbrev pub Clear : Type 0
Clear = (ℕ → Bool) → ℕ → Bool

-- A bank as it is constructed, and its registers as the driver sets them.
unfoldable pub construct_bank : Clear → Bank → Bank
unfolding reset_pins
construct_bank clear regs =
    let b = reset_pins max_pins 0 (record regs { sig_cap = λ i. 0 }) in
    record b { int_stat = clear b.int_stat }

-- The loop over the device nodes, from bank `i` on.
unfoldable pub probe : Clear → List Node → (i : ℕ) → List (Option Bank) → List (Option Bank)
unfolding construct_bank
probe clear [] i banks = banks
probe clear (d ∷ ds) i banks =
    let rest = probe clear ds i banks in
    if leb max_banks i
    then rest
    else if not d.has_name
    then rest
    else if not d.io_mem_valid
    then rest
    else if not d.irq_low_valid
    then rest
    else if not d.irq_high_valid
    then rest
    else probe clear ds (i + 1) (set banks i (some (construct_bank clear d.regs)))

-- The constructor
unfoldable pub construct_driver : Clear → List Node → Driver
unfolding probe
construct_driver clear ds = record {
  banks = probe clear ds 0 (replicate max_banks none);
  sent = [];
}
