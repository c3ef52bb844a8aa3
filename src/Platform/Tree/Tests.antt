-- ===== src/Platform/Tree/Tests.antt =====
-- A board whose PLLs are by-passed.
use genode_imx.Base.{ℕ, ◌/◌, ◌≡◌, true, false, some, refl, arith}
use genode_imx.Platform.Ccm.{SccgPll}
use genode_imx.Platform.FracPll.{FracPll}
use genode_imx.Platform.Tree.Clocks.{Registers, rate_of, name_of}
use genode_imx.Platform.Imx8mp.Pll14xx.{Pll14xx}
use genode_imx.Platform.Tree.Closed.{declares, Selects, IsRooted}
use genode_imx.Platform.Tree.Boards.{imx8mp, imx8mp_clocks, clocks_of, rate_of-clocks}
use genode_imx.Platform.Tree.Imx8mp.Sources.{imx8mp_sources, imx8mp_gates}
use genode_imx.Platform.Tree.Imx8mp.RootsA.{imx8mp_roots_a}
use genode_imx.Platform.Tree.Imx8mp.RootsB.{imx8mp_roots_b}
use genode_imx.Platform.Tree.Imx8mp.RootsC.{imx8mp_roots_c}

abbrev frac : FracPll
frac = record {
  output_div_value = 0;
  refclk_div_value = 4;
  newdiv_val = 0;
  bypass = 0;
  ref_sel = 0;
  power_down = 0;
  out_enable = 1;
  int_div_ctl = 30;
  frac_div_ctl = 0;
}

abbrev sccg : SccgPll
sccg = record {
  bypass1 = false;
  bypass2 = true;
  sse = false;
  output_div_val = 1;
  feedback_divf1 = 0;
  feedback_divf2 = 0;
  ref_divr1 = 0;
  ref_divr2 = 0;
}

abbrev pll : Pll14xx
pll = record {
  ref_clk_select = 0;
  bypass = 0;
  reset = 1;
  gating_enable = 1;
  post_div = 2;
  pre_div = 3;
  main_div = 325;
  dsm = 0;
}

abbrev regs : Registers
regs = record {
  frac = λ n. frac;
  sccg = λ n. sccg;
  sccg_ref_sel = λ n. 0;
  pll14xx = λ n. pll;
  div = λ a b. a / b;
  target = λ n. record { post_div = 0; pre_div = 0; ref_sel = 1; enable = true };
  post_div = λ n. 0;
  fixed_divider = λ r d. r / d;
}

uart1_there : declares (clocks_of imx8mp) "uart1_gate" ≡ true
unfolding imx8mp_clocks imx8mp_sources imx8mp_gates imx8mp_roots_a imx8mp_roots_b imx8mp_roots_c
    name_of
uart1_there = refl

regs-Selects : Selects regs
regs-Selects = record {
  target = λ n. omega arith;
  frac = λ n. omega arith;
  sccg = λ n. omega arith;
  pll14xx = λ n. omega arith;
}

rate_of-clocks_example :
    ((r : ℕ) × (rate_of regs (clocks_of imx8mp) "uart1_gate" ≡ some r))
    × IsRooted regs (clocks_of imx8mp) "uart1_gate"
rate_of-clocks_example = rate_of-clocks imx8mp regs regs-Selects "uart1_gate" uart1_there
