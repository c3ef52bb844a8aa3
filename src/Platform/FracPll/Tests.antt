-- ===== src/Platform/FracPll/Tests.antt =====
-- A video PLL behind the 25 MHz oscillator.
use genode_imx.Base.{ℕ, ◌+◌, ◌/◌, ◌^◌, ◌≤◌, Bool, true, refl, arith}
use genode_imx.Platform.FracPll.{FracPll, frac_set_rate, frac_rate}
use genode_imx.Platform.FracPll.Rate.{Divides, reference, frac_rate-frac_set_rate}

abbrev div : ℕ → ℕ → ℕ
div a b = a / b

div-Divides : Divides div
div-Divides a b pos = refl

abbrev at_once : ℕ → Bool
at_once n = true

abbrev video_pll : FracPll
video_pll = record {
  output_div_value = 1;
  refclk_div_value = 4;
  newdiv_val = 0;
  bypass = 0;
  ref_sel = 0;
  power_down = 1;
  out_enable = 1;
  int_div_ctl = 30;
  frac_div_ctl = 0;
}

-- 594 MHz, with a reference of 40 MHz.
frac_rate-frac_set_rate_example :
    let read = frac_rate 25000000 (frac_set_rate div 25000000 594000000 at_once video_pll).0 in
    (read ≤ 594000000)
    × (594000000 ≤ read + reference div 25000000 594000000 at_once video_pll / 2 ^ 25 + 2)
frac_rate-frac_set_rate_example =
    frac_rate-frac_set_rate div 25000000 594000000 at_once video_pll div-Divides (omega arith)
      (omega arith) (omega arith) (omega arith) (omega arith)
