-- ===== src/Gpio/Bank.antt =====
-- One bank of 32 pins, `Gpio_bank` of src/drivers/gpio/imx/driver.h with the registers of gpio.h.
use genode_imx.Base.{
  ℕ, zero, suc, ◌+◌, Bool, true, false, not, ◌&&◌, ◌==◌, if◌then◌else◌, List, [], ◌∷◌, update,
}

abbrev pub max_pins : ℕ
max_pins = 32

abbrev pub max_banks : ℕ
max_banks = 8

-- `Int_conf`
pub data Conf : Type 0 where
  low_level high_level ris_edge fal_edge : Conf

-- The registers, per pin, and the fields of a bank. A signal context is a number, 0 the invalid
-- capability.
pub record Bank : Type 0 where
  pub data_out : ℕ → Bool
  pub dir : ℕ → Bool
  pub pad_stat : ℕ → Bool
  pub int_conf : ℕ → Conf
  pub int_mask : ℕ → Bool
  pub int_stat : ℕ → Bool
  pub sig_cap : ℕ → ℕ
  pub irq_enabled : ℕ → Bool

-- What writing a set bit of `Int_stat` does to the status bits is a matter of the hardware and of
-- the register access.
abbrev pub Acknowledge : Type 0
Acknowledge = ℕ → (ℕ → Bool) → ℕ → Bool

-- A pin for which the loop of `handle_irq` submits a signal.
abbrev pub is_due : (status : ℕ → Bool) → Bank → ℕ → Bool
is_due status b i = status i && (b.irq_enabled i && not (b.sig_cap i == 0))

-- The loop over `rounds` pins from pin `i` on, after the status was read: the signals, in order,
-- and the bank.
unfoldable pub deliver : (rounds i : ℕ) → (status : ℕ → Bool) → Bank → List ℕ × Bank
deliver zero i status b = ([], b)
deliver (suc n) i status b =
    let due = is_due status b i in
    let next = if due then record b { int_mask = update b.int_mask i false } else b in
    let (sent, end) = deliver n (i + 1) status next in
    ((if due then b.sig_cap i ∷ sent else sent), end)

-- `Gpio_bank::handle_irq`
unfoldable pub bank_handle_irq : Bank → List ℕ × Bank
unfolding deliver
bank_handle_irq b = deliver max_pins 0 b.int_stat b

-- `Gpio_bank::irq`
abbrev pub bank_irq : ℕ → Bool → Bank → Bank
bank_irq pin enable b = record b {
  int_mask = update b.int_mask pin enable;
  irq_enabled = update b.irq_enabled pin enable;
}

-- `Gpio_bank::ack_irq`
abbrev pub bank_ack_irq : Acknowledge → ℕ → Bank → Bank
bank_ack_irq acknowledge pin b =
    let c = record b { int_stat = acknowledge pin b.int_stat } in
    if c.irq_enabled pin then record c { int_mask = update c.int_mask pin true } else c

-- `Gpio_bank::sigh`
abbrev pub bank_sigh : ℕ → ℕ → Bank → Bank
bank_sigh pin cap b = record b { sig_cap = update b.sig_cap pin cap }
