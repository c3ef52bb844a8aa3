-- ===== src/Gpio/Masks.antt =====
-- Which interrupts of the GPIO pins are unmasked.
use genode_imx.Base.{
  ℕ, ◌+◌, ◌*◌, ◌≡◌, ◌<◌, ◌≤◌, Bool, true, false, ◌&&◌, ltb, ◌==◌, if◌then◌else◌, Option, none, some,
  List, [], ◌∷◌, sym, ◌∙◌, arith, inl, inr, Bool-cases, get_or, length, subst,
}
use genode_imx.Base.Run.{ok}
use genode_imx.Gpio.Bank.{max_pins, max_banks, Bank, Acknowledge, is_due, bank_handle_irq}
use genode_imx.Gpio.Driver.{Driver}
use genode_imx.Gpio.Probe.{Node, Clear, construct_bank, construct_driver}
use genode_imx.Gpio.Calls.{
  Call, directs, writes, detects_falling, detects_rising, detects_high, detects_low, enables,
  acknowledges, registers, unregisters, interrupts, step, target, on_bank, step-Touched_ok,
}
use genode_imx.Gpio.Delivery.{bank_handle_irq-is_due}
use genode_imx.Gpio.Banks.{complete, constructed_from, length-construct_driver, reset_pins_lem}

-- Whether the client's latest call of `irq_enable` for a pin enabled it; the latest call is first.
pub asked : List Call → ℕ → Bool
asked [] gpio = false
asked (enables g enable ∷ cs) gpio = if g == gpio then enable else asked cs gpio
asked (c ∷ cs) gpio = asked cs gpio

-- What holds of pin `i` of bank `k` after some calls.
abbrev pub IsAsked : List Call → (k i : ℕ) → Bank → Type 0
IsAsked cs k i b =
    (b.irq_enabled i ≡ asked cs (k * max_pins + i)) × (b.int_mask i ≡ true → b.irq_enabled i ≡ true)

handled-IsAsked :
    (cs : List Call) (k i : ℕ) (b : Bank) → IsAsked cs k i b → IsAsked cs k i (bank_handle_irq b).1
handled-IsAsked cs k i b (same, low) =
    subst (IsAsked cs k i) (sym (bank_handle_irq-is_due b).1)
      (same, λ e. low (unmasked (ltb i max_pins && is_due b.int_stat b i) (b.int_mask i) e))
  where
    unmasked : (due m : Bool) → (if due then false else m) ≡ true → m ≡ true
    unmasked due m e = ground arith

module _ (acknowledge : Acknowledge) where
  -- What one call does to a pin.
  on_bank-IsAsked :
      (c : Call) (cs : List Call) (k i : ℕ) (b : Bank)
      → i < max_pins
      → IsAsked cs k i b
      → IsAsked (c ∷ cs) k i (if target acknowledge c == k then on_bank acknowledge c b else b)
  unfolding asked
  on_bank-IsAsked (directs gpio input) cs k i b low h = ground arith
  on_bank-IsAsked (writes gpio level) cs k i b low h = ground arith
  on_bank-IsAsked (detects_falling gpio) cs k i b low h = ground arith
  on_bank-IsAsked (detects_rising gpio) cs k i b low h = ground arith
  on_bank-IsAsked (detects_high gpio) cs k i b low h = ground arith
  on_bank-IsAsked (detects_low gpio) cs k i b low h = ground arith
  on_bank-IsAsked (enables gpio enable) cs k i b low h = ground arith
  on_bank-IsAsked (acknowledges gpio) cs k i b low h = ground arith
  on_bank-IsAsked (registers gpio cap) cs k i b low h = ground arith
  on_bank-IsAsked (unregisters gpio) cs k i b low h = ground arith
  on_bank-IsAsked (interrupts j) cs k i b low h = elim (Bool-cases (j == k)) [
    | inl hit ↦ rw hit (handled-IsAsked cs k i b h)
    | inr miss ↦ rw miss h
  ]

  -- What calls lead to, the latest first, each of which returns.
  pub data Reach (s : Driver) : List Call → Driver → Type 0 where
    start : Reach s [] s
    call :
        {cs : List Call} {t u : Driver} {r : Option (Unit {0})}
        → Reach s cs t
        → (c : Call) → step acknowledge c t ≡ ok r u
        → Reach s (c ∷ cs) u

  abbrev pub AreAsked : List Call → Driver → Type 0
  AreAsked cs s =
      (length s.banks ≤ max_banks)
      × ((k i : ℕ) (b : Bank) → i < max_pins → get_or s.banks k none ≡ some b → IsAsked cs k i b)

  step-AreAsked :
      (cs : List Call) (c : Call) (s t : Driver) (r : Option (Unit {0}))
      → AreAsked cs s
      → step acknowledge c s ≡ ok r t
      → AreAsked (c ∷ cs) t
  step-AreAsked cs c s t r (few, h) run =
      let (len, back) = step-Touched_ok acknowledge c s t r few run in
      (
        omega (arith, len),
        λ k i d low found.
            let (b, before, after) = back k d found in
            subst (IsAsked (c ∷ cs) k i) (sym after)
              (on_bank-IsAsked c cs k i b low (h k i b low before)),
      )

  Reach-AreAsked : {s u : Driver} {cs : List Call} → AreAsked [] s → Reach s cs u → AreAsked cs u
  Reach-AreAsked h start = h
  Reach-AreAsked h (call {cs} {t} {u} {r} reach c run) =
      step-AreAsked cs c t u r (Reach-AreAsked h reach) run

  -- The field `_irq_enabled`, which the driver does not initialise, is clear in the banks that are
  -- constructed.
  abbrev pub StartsOff : List Node → Type 0
  StartsOff ds =
      (k : ℕ) (d : Node) → complete ds k ≡ some d → (i : ℕ) → d.regs.irq_enabled i ≡ false

  construct_bank-IsAsked :
      (clear : Clear) (k i : ℕ) (regs : Bank)
      → i < max_pins
      → regs.irq_enabled i ≡ false
      → IsAsked [] k i (construct_bank clear regs)
  unfolding construct_bank asked
  construct_bank-IsAsked clear k i regs low off =
      subst (λ b. IsAsked [] k i (record b { int_stat = clear b.int_stat }))
        (sym (reset_pins_lem max_pins 0 (record regs { sig_cap = λ j. 0 })))
        (off, λ e. ground arith)

  construct_driver-AreAsked :
      (clear : Clear) (ds : List Node) → StartsOff ds → AreAsked [] (construct_driver clear ds)
  construct_driver-AreAsked clear ds off = (
    omega (arith, length-construct_driver clear ds),
    λ k i b low found.
        let (d, from, same) = constructed_from clear ds k b found in
        subst (IsAsked [] k i) (sym same)
          (construct_bank-IsAsked clear k i d.regs low (off k d from i)),
  )

  -- If no interrupt is marked enabled in a new bank, then whatever calls and interrupts the driver
  -- has seen since it started, the interrupt of a pin is unmasked only if the latest call of
  -- `irq_enable` for this pin enabled it, and the driver's note of this is always right.
  pub Reach-asked :
      (clear : Clear) (ds : List Node) (cs : List Call) (u : Driver) (k i : ℕ) (b : Bank)
      → StartsOff ds
      → Reach (construct_driver clear ds) cs u
      → i < max_pins
      → get_or u.banks k none ≡ some b
      → (b.irq_enabled i ≡ asked cs (k * max_pins + i))
        × (b.int_mask i ≡ true → asked cs (k * max_pins + i) ≡ true)
  Reach-asked clear ds cs u k i b off reach low found =
      let (same, only) =
        (Reach-AreAsked (construct_driver-AreAsked clear ds off) reach).1 k i b low found in
      (same, λ e. sym same ∙ only e)
