-- ===== src/Platform/FracPll.antt =====
-- `Frac_pll` of src/drivers/platform/imx8mq/ccm.h and ccm.cc. Rates are 64 bit wide; what a
-- division by 0 gives is left to the parameter `div`, and what the status bits say at each read to
-- the parameters `lock` and `ack`.
mod Rate
mod Tests
use Prim.Native.String.{String}
use text.Mathlib.Text.{◌==◌ as str_eq}
use genode_imx.Base.{
  ℕ, zero, suc, ◌+◌, ◌-◌, ◌*◌, ◌/◌, ◌%◌, ◌^◌, Bool, true, false, not, ◌==◌, ◌||◌, if◌then◌else◌,
  Option, none, some,
}

-- The fields of `Frac_pll::Config_reg_0` and `Config_reg_1` that the driver writes, or reads as they
-- were written
pub record FracPll : Type 0 where
  pub output_div_value : ℕ
  pub refclk_div_value : ℕ
  pub newdiv_val : ℕ
  pub bypass : ℕ
  pub ref_sel : ℕ
  pub power_down : ℕ
  pub out_enable : ℕ
  pub int_div_ctl : ℕ
  pub frac_div_ctl : ℕ

-- The name of the clock that `Frac_pll::_parent` looks for.
unfoldable pub parent_name : (ref_sel : ℕ) → String
parent_name ref_sel =
    if ref_sel == 0
    then "25m_ref_clk"
    else if ref_sel == 1
    then "27m_ref_clk"
    else if ref_sel == 2
    then "hdmi_phy_27m_clk"
    else if ref_sel == 3
    then "no_clk"
    else ""

-- `Frac_pll::_parent`, for the rate of the parent: `clocks` gives the rate of a clock that exists.
unfoldable pub frac_parent_rate : (clocks : String → Option ℕ) → FracPll → ℕ
frac_parent_rate clocks c = elim (clocks (parent_name c.ref_sel)) [ none ↦ 0 | some rate ↦ rate ]

-- `Frac_pll::parent`
unfoldable pub frac_set_parent : (parent : String) → FracPll → FracPll
frac_set_parent parent c =
    if str_eq parent "25m_ref_clk"
    then record c { ref_sel = 0 }
    else if str_eq parent "27m_ref_clk"
    then record c { ref_sel = 1 }
    else if str_eq parent "hdmi_phy_27m_clk"
    then record c { ref_sel = 2 }
    else record c { ref_sel = 3 }

-- The loops that wait for a status bit: how often it is read.
unfoldable pub poll : (rounds i : ℕ) → (bit : ℕ → Bool) → ℕ
poll zero i bit = 0
poll (suc n) i bit = let rest = suc (poll n (i + 1) bit) in if bit i then 1 else rest

-- `Frac_pll::_disable`
unfoldable pub frac_disable : FracPll → FracPll
frac_disable c = record c { power_down = 1 }

-- `Frac_pll::_enable`, with the number of reads of the lock status.
unfoldable pub frac_enable : (lock : ℕ → Bool) → FracPll → FracPll × ℕ
frac_enable lock c =
    if c.power_down == 0 then (c, 0) else (record c { power_down = 0 }, poll 0xfffff 0 lock)

-- The divisors of a rate, for the rate `pr` of the parent as it is divided and multiplied before.
unfoldable pub div_int_of : (div : ℕ → ℕ → ℕ) → (r pr : ℕ) → ℕ
div_int_of div r pr = div r pr % 2 ^ 7

unfoldable pub div_frac_of : (div : ℕ → ℕ → ℕ) → (r pr div_int : ℕ) → ℕ
div_frac_of div r pr div_int =
    div (((r + 2 ^ 64 - (div_int * pr) % 2 ^ 64) % 2 ^ 64 * 2 ^ 24) % 2 ^ 64) pr % 2 ^ 32

-- `Frac_pll::rate`, which sets it, with the number of reads of the acknowledgement: int_div_ctl is
-- given the integral divisor less one as an uint32_t.
unfoldable pub frac_set_rate :
    (div : ℕ → ℕ → ℕ) → (parent_rate rate : ℕ) → (ack : ℕ → Bool) → FracPll → FracPll × ℕ
frac_set_rate div parent_rate rate ack c =
    let r = (rate * 2) % 2 ^ 64 in
    let pr = (parent_rate * 8) % 2 ^ 64 / (c.refclk_div_value + 1) in
    let div_int = div_int_of div r pr in
    (
      record c {
        int_div_ctl = (div_int + 2 ^ 32 - 1) % 2 ^ 32 % 2 ^ 7;
        frac_div_ctl = div_frac_of div r pr div_int % 2 ^ 24;
        output_div_value = 0;
        newdiv_val = 0;
      },
      if not (c.bypass == 0) || not (c.power_down == 0) then 0 else poll 0xfffff 0 ack,
    )

-- `Frac_pll::rate`, which reads it.
unfoldable pub frac_rate : (parent_rate : ℕ) → FracPll → ℕ
frac_rate parent_rate c =
    let divq = (c.output_div_value + 1) * 2 in
    let divr = c.refclk_div_value + 1 in
    let pr = (parent_rate * 8) % 2 ^ 64 / divr in
    ((pr * (c.int_div_ctl + 1)) % 2 ^ 64 / divq + (pr * c.frac_div_ctl) % 2 ^ 64 / 2 ^ 24 / divq)
    % 2 ^ 64

-- `Frac_pll::Frac_pll`
unfoldable pub frac_construct : FracPll → FracPll
frac_construct c = record c { bypass = 0; out_enable = 1 }
