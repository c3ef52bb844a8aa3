-- ===== src/Gpio/Tests.antt =====
-- A driver of two banks: pins 2 and 5 of the first are enabled and pending, pin 5 has no client.
use genode_imx.Base.{
  ℕ, zero, suc, subst, ◌+◌, ◌*◌, ◌≡◌, Bool, true, false, ◌==◌, ◌&&◌, ◌||◌, ltb, if◌then◌else◌,
  Option, none, some, List, [], ◌∷◌, refl, arith, map, get_or,
}
use genode_imx.Base.Run.{ok}
use genode_imx.Gpio.Bank.{
  max_pins, max_banks, low_level, Bank, Acknowledge, deliver, bank_handle_irq, bank_irq,
}
use genode_imx.Gpio.Driver.{Driver, with_gpio}
use genode_imx.Gpio.Probe.{Node, Clear, construct_bank, probe, construct_driver}
use genode_imx.Gpio.Calls.{enables, step}
use genode_imx.Gpio.Delivery.{wants_signal, pins_where, masked, bank_handle_irq_lem}
use genode_imx.Gpio.Masks.{Reach, start, call, asked, StartsOff, Reach-asked}
use genode_imx.Gpio.Banks.{complete, construct_driver_lem}

-- All status bits go when one of them is written.
abbrev all_at_once : Acknowledge
all_at_once pin status i = false

abbrev quiet : Bank
quiet = record {
  data_out = λ i. false;
  dir = λ i. false;
  pad_stat = λ i. false;
  int_conf = λ i. low_level;
  int_mask = λ i. false;
  int_stat = λ i. false;
  sig_cap = λ i. 0;
  irq_enabled = λ i. false;
}

abbrev waits : Bank
waits = record quiet {
  int_mask = λ i. (i == 2) || (i == 5);
  int_stat = λ i. (i == 2) || (i == 5);
  sig_cap = λ i. if i == 2 then 40 else 0;
  irq_enabled = λ i. (i == 2) || (i == 5);
}

bank_handle_irq_lem_example :
    let due = wants_signal waits in
    ((bank_handle_irq waits).0 ≡ map waits.sig_cap (pins_where max_pins 0 due))
    × ((bank_handle_irq waits).1
        ≡ record waits { int_mask = masked (λ j. ltb j max_pins && due j) waits })
bank_handle_irq_lem_example = bank_handle_irq_lem waits

one_signal : (bank_handle_irq waits).0 ≡ 40 ∷ []
unfolding bank_handle_irq deliver
one_signal = refl

-- The second device has no second interrupt.
abbrev node : Bool → Node
node high = record {
  has_name = true;
  io_mem_valid = true;
  irq_low_valid = true;
  irq_high_valid = high;
  regs = quiet;
}

abbrev clear_all : Clear
clear_all status i = false

abbrev nodes : List Node
nodes = node true ∷ node false ∷ node true ∷ []

construct_driver_lem_example : get_or (construct_driver clear_all nodes).banks 1 none ≡ (
    if ltb 1 max_banks
    then elim (complete nodes 1) [ none ↦ none | some d ↦ some (construct_bank clear_all d.regs) ]
    else none)
construct_driver_lem_example = construct_driver_lem clear_all nodes 1

abbrev first : Bank
first = construct_bank clear_all quiet

abbrev enabled : Bank
enabled = bank_irq 3 true first

abbrev two_banks : Driver
two_banks = record {
  banks = some first ∷ some first ∷ none ∷ none ∷ none ∷ none ∷ none ∷ none ∷ [];
  sent = [];
}

abbrev enabled_pin : Driver
enabled_pin = record two_banks {
  banks = some first ∷ some enabled ∷ none ∷ none ∷ none ∷ none ∷ none ∷ none ∷ [];
}

built : construct_driver clear_all nodes ≡ two_banks
unfolding construct_driver probe
built = refl

enables_pin : step all_at_once (enables 35 true) two_banks ≡ ok (some tt) enabled_pin
unfolding step with_gpio
enables_pin = refl

from_start : Reach all_at_once (construct_driver clear_all nodes) (enables 35 true ∷ []) enabled_pin
unfolding construct_driver probe
from_start = call start (enables 35 true) enables_pin

nodes-StartsOff : StartsOff all_at_once nodes
unfolding complete
nodes-StartsOff k d e i = subst (IsOff i) e (off k)
  where
    IsOff : ℕ → Option Node → Type 0
    IsOff i none = Unit {0}
    IsOff i (some d) = d.regs.irq_enabled i ≡ false

    off : (k : ℕ) → IsOff i (complete nodes k)
    off zero = refl
    off (suc zero) = refl
    off (suc (suc k)) = tt

Reach-asked_example :
    (enabled.irq_enabled 3 ≡ asked (enables 35 true ∷ []) (1 * max_pins + 3))
    × (enabled.int_mask 3 ≡ true → asked (enables 35 true ∷ []) (1 * max_pins + 3) ≡ true)
Reach-asked_example =
    Reach-asked all_at_once clear_all nodes (enables 35 true ∷ []) enabled_pin 1 3 enabled
      nodes-StartsOff from_start (omega arith) refl
