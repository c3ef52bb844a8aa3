-- ===== src/Gpio/Pins.antt =====
-- Which pins a call of the GPIO driver can reach.
use genode_imx.Base.{
  ℕ, ◌+◌, ◌*◌, ◌/◌, ◌≡◌, ◌≢◌, ◌<◌, ◌≤◌, true, false, ◌==◌, if◌then◌else◌, Option, none, some, refl,
  sym, ◌∙◌, arith, inl, inr, Bool-cases, get_or, set, length, subst,
}
use genode_imx.Base.Run.{ok, fault}
use genode_imx.Gpio.Bank.{max_pins, max_banks, Bank, Acknowledge}
use genode_imx.Gpio.Driver.{Driver, with_gpio, gpio_index, gpio_valid}
use genode_imx.Gpio.Calls.{
  Call, directs, writes, detects_falling, detects_rising, detects_high, detects_low, enables,
  acknowledges, registers, unregisters, interrupts, step, target, on_bank, step-Touched_ok,
}

-- A pin looks the same in two banks, its status bit apart.
abbrev pub Alike : ℕ → Bank → Bank → Type 0
Alike i b c =
    (c.data_out i ≡ b.data_out i)
    × (c.dir i ≡ b.dir i)
    × (c.int_conf i ≡ b.int_conf i)
    × (c.int_mask i ≡ b.int_mask i)
    × (c.sig_cap i ≡ b.sig_cap i)
    × (c.irq_enabled i ≡ b.irq_enabled i)

-- The pin that a call names; an interrupt names none.
abbrev pub pin_of : Call → Option ℕ
pin_of (directs gpio input) = some gpio
pin_of (writes gpio level) = some gpio
pin_of (detects_falling gpio) = some gpio
pin_of (detects_rising gpio) = some gpio
pin_of (detects_high gpio) = some gpio
pin_of (detects_low gpio) = some gpio
pin_of (enables gpio enable) = some gpio
pin_of (acknowledges gpio) = some gpio
pin_of (registers gpio cap) = some gpio
pin_of (unregisters gpio) = some gpio
pin_of (interrupts k) = none

module _ (acknowledge : Acknowledge) where
  target-pin_of : (c : Call) (g : ℕ) → pin_of c ≡ some g → target acknowledge c ≡ g / max_pins
  target-pin_of (directs gpio input) g e = cc
  target-pin_of (writes gpio level) g e = cc
  target-pin_of (detects_falling gpio) g e = cc
  target-pin_of (detects_rising gpio) g e = cc
  target-pin_of (detects_high gpio) g e = cc
  target-pin_of (detects_low gpio) g e = cc
  target-pin_of (enables gpio enable) g e = cc
  target-pin_of (acknowledges gpio) g e = cc
  target-pin_of (registers gpio cap) g e = cc
  target-pin_of (unregisters gpio) g e = cc
  target-pin_of (interrupts k) g e = cc

  on_bank-Alike :
      (c : Call) (g i : ℕ) (b : Bank)
      → pin_of c ≡ some g
      → gpio_index g ≢ i
      → Alike i b (on_bank acknowledge c b)
  on_bank-Alike (directs gpio input) g i b e ne = ground arith
  on_bank-Alike (writes gpio level) g i b e ne = ground arith
  on_bank-Alike (detects_falling gpio) g i b e ne = ground arith
  on_bank-Alike (detects_rising gpio) g i b e ne = ground arith
  on_bank-Alike (detects_high gpio) g i b e ne = ground arith
  on_bank-Alike (detects_low gpio) g i b e ne = ground arith
  on_bank-Alike (enables gpio enable) g i b e ne = ground arith
  on_bank-Alike (acknowledges gpio) g i b e ne = ground arith
  on_bank-Alike (registers gpio cap) g i b e ne = ground arith
  on_bank-Alike (unregisters gpio) g i b e ne = ground arith
  on_bank-Alike (interrupts k) g i b e ne = absurd cc

  -- In a driver of at most eight banks, a call for a pin that returns leaves every other pin of
  -- every bank as it is, its status bit apart: its level, direction, trigger, mask, client and
  -- whether its interrupt is enabled, and it constructs no bank.
  pub step-Alike :
      (c : Call) (g k i : ℕ) (s t : Driver) (r : Option (Unit {0})) (d : Bank)
      → length s.banks ≤ max_banks
      → pin_of c ≡ some g
      → i < max_pins
      → k * max_pins + i ≢ g
      → step acknowledge c s ≡ ok r t
      → get_or t.banks k none ≡ some d
      → (b : Bank) × (get_or s.banks k none ≡ some b) × Alike i b d
  step-Alike c g k i s t r d few named low other run found =
      let (b, before, after) = (step-Touched_ok acknowledge c s t r few run).1 k d found in
      (b, before, subst (Alike i b) (sym after) (alike b))
    where
      alike :
          (b : Bank) → Alike i b (if target acknowledge c == k then on_bank acknowledge c b else b)
      alike b = elim (Bool-cases (target acknowledge c == k)) [
        | inl hit ↦
            let there : target acknowledge c ≡ k = ground arith in
            let same_bank : g / max_pins ≡ k = sym (target-pin_of c g named) ∙ there in
            let elsewhere : gpio_index g ≢ i = omega arith in
            rw hit (on_bank-Alike c g i b named elsewhere)
        | inr miss ↦ rw miss (refl, refl, refl, refl, refl, refl)
      ]

-- A pin that `gpio_valid` refuses is ignored by every call that changes its bank, and one that it
-- accepts is served if its bank was constructed; if not, the call fails with the exception of the
-- missing bank.
pub with_gpio-gpio_valid :
    (gpio : ℕ) (f : Bank → Bank) (s : Driver)
    → ((gpio_valid gpio ≡ false) → with_gpio gpio (λ b. (tt, f b)) s ≡ ok none s)
      × ((gpio_valid gpio ≡ true)
          → get_or s.banks (gpio / max_pins) none ≡ none
          → with_gpio gpio (λ b. (tt, f b)) s ≡ fault)
      × ((b : Bank)
          → gpio_valid gpio ≡ true
          → get_or s.banks (gpio / max_pins) none ≡ some b
          → with_gpio gpio (λ b. (tt, f b)) s
            ≡ ok (some tt) (record s { banks = set s.banks (gpio / max_pins) (some (f b)) }))
unfolding with_gpio
with_gpio-gpio_valid gpio f s =
    (λ bad. ground arith, λ good missing. ground arith, λ b good found. ground arith)
