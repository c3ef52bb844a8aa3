-- ===== src/Gpio/Calls.antt =====
-- The calls and interrupts of the GPIO driver as steps, and which bank a step changes.
use genode_imx.Base.{
  ℕ, zero, suc, ◌/◌, ◌≡◌, ◌≢◌, ◌<◌, ◌≤◌, Bool, false, not, ltb, ◌==◌, if◌then◌else◌, Option, none,
  some, List, [], ◌∷◌, refl, sym, ap, ◌∙◌, arith, update, subst, inl, inr, Bool-cases, Option-cases,
  get_or, set, length, length-set, get_or-set_self, get_or-set_ne,
}
use genode_imx.Base.Run.{Run, ok, fault, AfterOk, AfterOk-if, AfterOk-option}
use genode_imx.Gpio.Bank.{
  max_pins, max_banks, low_level, high_level, ris_edge, fal_edge, Bank, Acknowledge,
  bank_handle_irq, bank_irq, bank_ack_irq, bank_sigh,
}
use genode_imx.Gpio.Driver.{
  Driver, with_gpio, gpio_index, direction, write, falling_detect, rising_detect, high_detect,
  low_detect, irq_enable, ack_irq, register_signal, unregister_signal, handle,
}

-- What can happen to the driver: a call for a pin, or the interrupt of a bank.
pub data Call : Type 0 where
  directs : (gpio : ℕ) → (input : Bool) → Call
  writes : (gpio : ℕ) → (level : Bool) → Call
  detects_falling detects_rising detects_high detects_low : (gpio : ℕ) → Call
  enables : (gpio : ℕ) → (enable : Bool) → Call
  acknowledges : (gpio : ℕ) → Call
  registers : (gpio cap : ℕ) → Call
  unregisters : (gpio : ℕ) → Call
  interrupts : (k : ℕ) → Call

module _ (acknowledge : Acknowledge) where
  unfoldable pub step : Call → Driver → Run Driver (Option (Unit {0}))
  unfolding with_gpio handle
  step (directs gpio input) s = direction gpio input s
  step (writes gpio level) s = write gpio level s
  step (detects_falling gpio) s = falling_detect gpio s
  step (detects_rising gpio) s = rising_detect gpio s
  step (detects_high gpio) s = high_detect gpio s
  step (detects_low gpio) s = low_detect gpio s
  step (enables gpio enable) s = irq_enable gpio enable s
  step (acknowledges gpio) s = ack_irq acknowledge gpio s
  step (registers gpio cap) s = register_signal gpio cap s
  step (unregisters gpio) s = unregister_signal gpio s
  step (interrupts k) s = ok (some tt) (handle k s)

  -- The bank that a call is for, and what it does to the bank.
  abbrev pub target : Call → ℕ
  target (directs gpio input) = gpio / max_pins
  target (writes gpio level) = gpio / max_pins
  target (detects_falling gpio) = gpio / max_pins
  target (detects_rising gpio) = gpio / max_pins
  target (detects_high gpio) = gpio / max_pins
  target (detects_low gpio) = gpio / max_pins
  target (enables gpio enable) = gpio / max_pins
  target (acknowledges gpio) = gpio / max_pins
  target (registers gpio cap) = gpio / max_pins
  target (unregisters gpio) = gpio / max_pins
  target (interrupts k) = k

  abbrev pub on_bank : Call → Bank → Bank
  on_bank (directs gpio input) b = record b { dir = update b.dir (gpio_index gpio) (not input) }
  on_bank (writes gpio level) b = record b { data_out = update b.data_out (gpio_index gpio) level }
  on_bank (detects_falling gpio) b = record b {
    int_conf = update b.int_conf (gpio_index gpio) fal_edge;
  }
  on_bank (detects_rising gpio) b = record b {
    int_conf = update b.int_conf (gpio_index gpio) ris_edge;
  }
  on_bank (detects_high gpio) b = record b {
    int_conf = update b.int_conf (gpio_index gpio) high_level;
  }
  on_bank (detects_low gpio) b = record b {
    int_conf = update b.int_conf (gpio_index gpio) low_level;
  }
  on_bank (enables gpio enable) b = bank_irq (gpio_index gpio) enable b
  on_bank (acknowledges gpio) b = bank_ack_irq acknowledge (gpio_index gpio) b
  on_bank (registers gpio cap) b = bank_sigh (gpio_index gpio) cap b
  on_bank (unregisters gpio) b = bank_sigh (gpio_index gpio) 0 b
  on_bank (interrupts k) b = (bank_handle_irq b).1

  -- The banks `ds` are the banks `bs`, but for a change of bank `k`.
  abbrev pub Touched : ℕ → (Bank → Bank) → (bs ds : List (Option Bank)) → Type 0
  Touched k f bs ds =
      (length ds ≡ length bs)
      × ((j : ℕ) (d : Bank)
          → get_or ds j none ≡ some d
          → (b : Bank) × (get_or bs j none ≡ some b) × (d ≡ (if k == j then f b else b)))

  some-inside :
      (bs : List (Option Bank)) (j : ℕ) (b : Bank) → get_or bs j none ≡ some b → j < length bs
  some-inside [] j b e = cc
  some-inside (x ∷ bs) zero b e = omega arith
  some-inside (x ∷ bs) (suc j) b e = omega (arith, some-inside bs j b e)

  set-Touched :
      (k : ℕ) (f : Bank → Bank) (b : Bank) (bs : List (Option Bank))
      → get_or bs k none ≡ some b
      → Touched k f bs (set bs k (some (f b)))
  set-Touched k f b bs found = (
    length-set bs k (some (f b)),
    λ j d e. elim (Bool-cases (k == j)) [
      | inl hit ↦
          let here : k ≡ j = ground arith in
          let low : k < length bs = some-inside bs k b found in
          let self : get_or (set bs k (some (f b))) k none ≡ some (f b) =
            get_or-set_self bs k (some (f b)) none low in
          let met : get_or (set bs k (some (f b))) k none ≡ some d =
            ap (λ i. get_or (set bs k (some (f b))) i none) here ∙ e in
          rw hit (b, ap (λ i. get_or bs i none) (sym here) ∙ found, cc)
      | inr miss ↦
          let other : k ≢ j = ground arith in
          rw miss (d, sym (get_or-set_ne bs k j (some (f b)) none other) ∙ e, refl)
    ],
  )

  with_gpio-Touched :
      (gpio : ℕ) (f : Bank → Bank) (s : Driver)
      → length s.banks ≤ max_banks
      → AfterOk
          (λ r t. Touched (gpio / max_pins) f s.banks t.banks)
          (with_gpio gpio (λ b. (tt, f b)) s)
  unfolding with_gpio
  with_gpio-Touched gpio f s few =
      let k = gpio / max_pins in
      let P = λ (r : Option (Unit {0})) (t : Driver). Touched k f s.banks t.banks in
      AfterOk-if P (ltb k max_banks) _ _
        (λ low.
          AfterOk-option P (get_or s.banks k none) fault
            (λ b. ok (some tt) (record s { banks = set s.banks k (some (f b)) })) (λ _. tt)
            (λ b found. set-Touched k f b s.banks found))
        (λ high. (
          refl,
          λ j d e.
              let inside : j < length s.banks = some-inside s.banks j d e in
              let other : (k == j) ≡ false = ground arith in (d, e, rw other refl),
        ))

  handle-Touched :
      (k : ℕ) (s : Driver) → Touched k (λ b. (bank_handle_irq b).1) s.banks (handle k s).banks
  unfolding handle
  handle-Touched k s = elim (Option-cases (get_or s.banks k none)) [
    | inl missing ↦
        rw (handle, missing)
          (
            refl,
            λ j d e. elim (Bool-cases (k == j)) [
              | inl hit ↦
                  let here : k ≡ j = ground arith in
                  let met : get_or s.banks k none ≡ some d =
                    ap (λ i. get_or s.banks i none) here ∙ e in
                  absurd cc
              | inr miss ↦ (d, e, rw miss refl)
            ],
          )
    | inr (b, found) ↦
        rw (handle, found) (set-Touched k (λ c. (bank_handle_irq c).1) b s.banks found)
  ]

  -- Any call changes at most the bank that it is for, and none appears or goes.
  pub step-Touched :
      (c : Call) (s : Driver)
      → length s.banks ≤ max_banks
      → AfterOk (λ r t. Touched (target c) (on_bank c) s.banks t.banks) (step c s)
  unfolding step
  step-Touched (directs gpio input) s few = with_gpio-Touched gpio _ s few
  step-Touched (writes gpio level) s few = with_gpio-Touched gpio _ s few
  step-Touched (detects_falling gpio) s few = with_gpio-Touched gpio _ s few
  step-Touched (detects_rising gpio) s few = with_gpio-Touched gpio _ s few
  step-Touched (detects_high gpio) s few = with_gpio-Touched gpio _ s few
  step-Touched (detects_low gpio) s few = with_gpio-Touched gpio _ s few
  step-Touched (enables gpio enable) s few = with_gpio-Touched gpio _ s few
  step-Touched (acknowledges gpio) s few = with_gpio-Touched gpio _ s few
  step-Touched (registers gpio cap) s few = with_gpio-Touched gpio _ s few
  step-Touched (unregisters gpio) s few = with_gpio-Touched gpio _ s few
  step-Touched (interrupts k) s few = handle-Touched k s

  pub step-Touched_ok :
      (c : Call) (s t : Driver) (r : Option (Unit {0}))
      → length s.banks ≤ max_banks
      → step c s ≡ ok r t
      → Touched (target c) (on_bank c) s.banks t.banks
  step-Touched_ok c s t r few run =
      subst (AfterOk (λ _ u. Touched (target c) (on_bank c) s.banks u.banks)) run
        (step-Touched c s few)
