-- ===== src/Gpio/Driver.antt =====
-- The driver's calls, `Imx_driver` of src/drivers/gpio/imx/driver.h. A fault is the exception of
-- a bank that was not constructed.
use genode_imx.Base.{
  ℕ, ◌/◌, ◌%◌, ◌*◌, Bool, false, not, ltb, if◌then◌else◌, Option, none, some, List, ◌++◌, get_or,
  set, update,
}
use genode_imx.Base.Run.{Cmd, ok, fault}
use genode_imx.Gpio.Bank.{
  max_pins, max_banks, Conf, low_level, high_level, ris_edge, fal_edge, Bank, Acknowledge,
  bank_handle_irq, bank_irq, bank_ack_irq, bank_sigh,
}

-- `Imx_driver`: the banks, of which some may not be constructed, and the signals sent so far.
pub record Driver : Type 0 where
  pub banks : List (Option Bank)
  pub sent : List ℕ

-- `_gpio_index`
abbrev pub gpio_index : ℕ → ℕ
gpio_index gpio = gpio % 32

-- `_with_gpio`: a pin of no bank is ignored with a warning, which is the result `none`.
unfoldable pub with_gpio : {A : Type 0} → ℕ → (Bank → A × Bank) → Cmd Driver (Option A)
with_gpio gpio fn s =
    let bank = gpio / max_pins in
    if ltb bank max_banks
    then elim (get_or s.banks bank none) [
      | none ↦ fault
      | some b ↦ let (a, c) = fn b in ok (some a) (record s { banks = set s.banks bank (some c) })
    ]
    else ok none s

-- The calls that only change the bank.
abbrev change : ℕ → (ℕ → Bank → Bank) → Cmd Driver (Option (Unit {0}))
change gpio f = with_gpio gpio (λ b. (tt, f (gpio_index gpio) b))

-- `direction`
abbrev pub direction : ℕ → Bool → Cmd Driver (Option (Unit {0}))
direction gpio input = change gpio (λ i b. record b { dir = update b.dir i (not input) })

-- `write`
abbrev pub write : ℕ → Bool → Cmd Driver (Option (Unit {0}))
write gpio level = change gpio (λ i b. record b { data_out = update b.data_out i level })

-- `read`, which is false for a pin of no bank.
unfoldable pub read : ℕ → Cmd Driver Bool
unfolding with_gpio
read gpio s = elim (with_gpio gpio (λ b. (b.pad_stat (gpio_index gpio), b)) s) [
  | ok none t ↦ ok false t
  | ok (some v) t ↦ ok v t
  | _ ↦ fault
]

-- `falling_detect`, `rising_detect`, `high_detect` and `low_detect`
abbrev detect : Conf → ℕ → Cmd Driver (Option (Unit {0}))
detect conf gpio = change gpio (λ i b. record b { int_conf = update b.int_conf i conf })

abbrev pub falling_detect : ℕ → Cmd Driver (Option (Unit {0}))
falling_detect = detect fal_edge

abbrev pub rising_detect : ℕ → Cmd Driver (Option (Unit {0}))
rising_detect = detect ris_edge

abbrev pub high_detect : ℕ → Cmd Driver (Option (Unit {0}))
high_detect = detect high_level

abbrev pub low_detect : ℕ → Cmd Driver (Option (Unit {0}))
low_detect = detect low_level

-- `irq_enable`
abbrev pub irq_enable : ℕ → Bool → Cmd Driver (Option (Unit {0}))
irq_enable gpio enable = change gpio (λ i. bank_irq i enable)

-- `ack_irq`
abbrev pub ack_irq : Acknowledge → ℕ → Cmd Driver (Option (Unit {0}))
ack_irq acknowledge gpio = change gpio (λ i. bank_ack_irq acknowledge i)

-- `register_signal`
abbrev pub register_signal : ℕ → ℕ → Cmd Driver (Option (Unit {0}))
register_signal gpio cap = change gpio (λ i. bank_sigh i cap)

-- `unregister_signal`
abbrev pub unregister_signal : ℕ → Cmd Driver (Option (Unit {0}))
unregister_signal gpio = register_signal gpio 0

-- `gpio_valid`
abbrev pub gpio_valid : ℕ → Bool
gpio_valid gpio = ltb gpio (max_pins * max_banks)

-- `Irq_handler::_handle` of bank `k`, which acknowledges its interrupt afterwards. The interrupt
-- of a bank that is not constructed has no handler.
unfoldable pub handle : (k : ℕ) → Driver → Driver
handle k s = elim (get_or s.banks k none) [
  | none ↦ s
  | some b ↦
      let (caps, c) = bank_handle_irq b in
      record s { banks = set s.banks k (some c); sent = s.sent ++ caps }
]
