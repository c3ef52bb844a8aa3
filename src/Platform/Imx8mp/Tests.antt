-- ===== src/Platform/Imx8mp/Tests.antt =====
-- The PLLs of the i.MX8MP behind the 24 MHz oscillator.
use mathlib.Core.List.{Memᴰ}
use genode_imx.Base.{ℕ, ◌/◌, ◌*◌, ◌^◌, ◌≡◌, ◌≤◌, Bool, true, refl, arith, []}
use genode_imx.Platform.Imx8mp.Pll14xx.{
  Pll14xx, compute_rate, compute_kdiv, set_rate_1416, rate_1416, perform_all, read_config,
  calc_config,
}
use genode_imx.Platform.Imx8mp.Compute.{
  rate_1443, in_window, compute, try_pdivs, try_sdivs, distance,
}
use genode_imx.Platform.Imx8mp.Table.{rates, rate_1416-set_rate_1416}
use genode_imx.Platform.Imx8mp.Search.{Fits}
use genode_imx.Platform.Imx8mp.Fraction.{after, rate_1443-greatest}

-- A PLL at 650 MHz that locks at once.
abbrev pll : Pll14xx
pll = record {
  ref_clk_select = 0;
  bypass = 0;
  reset = 1;
  gating_enable = 1;
  post_div = 2;
  pre_div = 3;
  main_div = 325;
  dsm = 0;
}

abbrev at_once : ℕ → Bool
at_once n = true

abbrev div : ℕ → ℕ → ℕ
div a b = a / b

pll-Fits : Fits pll
pll-Fits = record {
  pre_low = omega arith;
  main_low = omega arith;
  post_low = omega arith;
  dsm_low = omega arith;
}

rate_1416-set_rate_1416_example :
    let q = perform_all (set_rate_1416 at_once 800000000) pll in
    (Memᴰ 800000000 rates
      → (rate_1416 q ≡ 800000000)
        × (24000000 * q.main_div ≡ 800000000 * q.pre_div * 2 ^ q.post_div))
    × (¬ Memᴰ 800000000 rates → set_rate_1416 at_once 800000000 ≡ [])
rate_1416-set_rate_1416_example = rate_1416-set_rate_1416 at_once pll 800000000

rate_1443-greatest_example :
    let q = after div 24000000 1536000000 at_once pll pll-Fits in
    ((calc_config div 24000000 1536000000 3 1).rate ≤ rate_1443 div 24000000 q)
    × (rate_1443 div 24000000 q ≤ 1536000000)
unfolding in_window read_config calc_config compute try_pdivs try_sdivs distance compute_rate
    compute_kdiv
rate_1443-greatest_example =
    rate_1443-greatest div 24000000 1536000000 at_once pll pll-Fits 3 1 refl (omega arith)
      (omega arith) (omega arith) (omega arith) (omega arith) (omega arith)
