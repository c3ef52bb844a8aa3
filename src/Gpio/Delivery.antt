-- ===== src/Gpio/Delivery.antt =====
-- The signals of an interrupt.
use genode_imx.Base.{
  ℕ, zero, suc, ◌+◌, ◌≡◌, Bool, false, ◌&&◌, leb, ltb, ◌==◌, if◌then◌else◌, List, [], ◌∷◌, refl,
  sym, ap, ◌∙◌, fun_ext, subst, arith, update, inl, inr, Bool-cases, map,
}
use genode_imx.Gpio.Bank.{max_pins, Bank, is_due, deliver, bank_handle_irq}

-- The pins from `i` on of which a test holds, in order.
pub pins_where : (rounds i : ℕ) → (ℕ → Bool) → List ℕ
pins_where zero i p = []
pins_where (suc n) i p = let rest = pins_where n (i + 1) p in if p i then i ∷ rest else rest

-- A pin is pending, enabled and has a client.
pub wants_signal : Bank → ℕ → Bool
wants_signal b i =
    if b.sig_cap i == 0 then false else if b.irq_enabled i then b.int_stat i else false

wants_signal_lem : (b : Bank) → is_due b.int_stat b ≡ wants_signal b
unfolding wants_signal
wants_signal_lem b = fun_ext (λ i. ground arith)

-- The masks after the signals were sent.
abbrev pub masked : (ℕ → Bool) → Bank → ℕ → Bool
masked due b j = if due j then false else b.int_mask j

deliver_lem :
    (n i : ℕ) (status : ℕ → Bool) (b : Bank)
    → let (sent, end) = deliver n i status b in
      (sent ≡ map b.sig_cap (pins_where n i (is_due status b)))
      × (end
          ≡ record b { int_mask = masked (λ j. (leb i j && ltb j (i + n)) && is_due status b j) b })
unfolding deliver pins_where
deliver_lem zero i status b =
    (refl, ap (λ m. record b { int_mask = m }) (fun_ext (λ j. ground arith)))
deliver_lem (suc n) i status b = elim (Bool-cases (is_due status b i)) [
  | inl due ↦
      let next = record b { int_mask = update b.int_mask i false } in
      let (told, done) = deliver_lem n (i + 1) status next in
      rw due (
        ap (λ l. b.sig_cap i ∷ l) told,
        done ∙ ap (λ m. record b { int_mask = m }) (fun_ext (λ j. ground arith)),
      )
  | inr calm ↦
      let (told, done) = deliver_lem n (i + 1) status b in
      rw calm (told, done ∙ ap (λ m. record b { int_mask = m }) (fun_ext (λ j. ground arith)))
]

pub bank_handle_irq-is_due :
    (b : Bank)
    → let due = is_due b.int_stat b in
      ((bank_handle_irq b).0 ≡ map b.sig_cap (pins_where max_pins 0 due))
      × ((bank_handle_irq b).1 ≡ record b { int_mask = masked (λ j. ltb j max_pins && due j) b })
unfolding bank_handle_irq
bank_handle_irq-is_due b =
    let (told, done) = deliver_lem max_pins 0 b.int_stat b in
    (told, done ∙ ap (λ m. record b { int_mask = m }) (fun_ext (λ j. ground arith)))

-- On an interrupt of a bank, a signal is sent to the client of each pin, in the order of the pins,
-- that is pending, enabled and has a client; just these pins are masked, and nothing else of the
-- bank changes.
pub bank_handle_irq_lem :
    (b : Bank)
    → let due = wants_signal b in
      ((bank_handle_irq b).0 ≡ map b.sig_cap (pins_where max_pins 0 due))
      × ((bank_handle_irq b).1 ≡ record b { int_mask = masked (λ j. ltb j max_pins && due j) b })
bank_handle_irq_lem b =
    subst
      (λ due.
        ((bank_handle_irq b).0 ≡ map b.sig_cap (pins_where max_pins 0 due))
        × ((bank_handle_irq b).1 ≡ record b { int_mask = masked (λ j. ltb j max_pins && due j) b }))
      (wants_signal_lem b) (bank_handle_irq-is_due b)

-- An interrupt of a bank right after another one, before any pin is acknowledged, sends all signals
-- of that one once more, in the same order, and changes nothing.
pub bank_handle_irq-bank_handle_irq :
    (b : Bank) → let (sent, c) = bank_handle_irq b in bank_handle_irq c ≡ (sent, c)
bank_handle_irq-bank_handle_irq b =
    let (told, done) = bank_handle_irq-is_due b in
    let due : ℕ → Bool = λ j. ltb j max_pins && is_due b.int_stat b j in
    let c = record b { int_mask = masked due b } in
    let (told', done') = bank_handle_irq-is_due c in
    let once : masked due c ≡ masked due b = fun_ext (λ j. ground arith) in
    ap bank_handle_irq done
    ∙ ap (λ sent. (sent, (bank_handle_irq c).1)) (told' ∙ sym told)
    ∙ ap (λ d. ((bank_handle_irq b).0, d))
        (done' ∙ ap (λ m. record b { int_mask = m }) once ∙ sym done)
