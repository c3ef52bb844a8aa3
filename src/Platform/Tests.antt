-- ===== src/Platform/Tests.antt =====
-- Clocks behind the 25 MHz oscillator, and an 800 MHz parent.
use genode_imx.Base.{◌≡◌, ◌≤◌, true, false, refl, arith}
use genode_imx.Platform.Ccm.{
  SccgPll, sccg_candidate, sccg_set_rate, sccg_rate, TargetReg, divided, deviation_of,
  root_set_rate, root_rate,
}
use genode_imx.Platform.Closest.{root_rate-root_set_rate}
use genode_imx.Platform.Pll.{sccg_rate-sccg_set_rate}

abbrev pll : SccgPll
pll = record {
  bypass1 = false;
  bypass2 = true;
  sse = false;
  output_div_val = 1;
  feedback_divf1 = 0;
  feedback_divf2 = 0;
  ref_divr1 = 0;
  ref_divr2 = 0;
}

made : 800000000 ≡ sccg_candidate 25000000 32 1
unfolding sccg_candidate
made = refl

-- 800 MHz are 32 times 25 MHz.
sccg_rate-sccg_set_rate_example :
    sccg_rate 25000000 (sccg_set_rate 25000000 800000000 pll) ≡ 800000000
sccg_rate-sccg_set_rate_example =
    (sccg_rate-sccg_set_rate 25000000 800000000 pll).0 32 1 (omega arith, omega arith)
      (omega arith, omega arith) made

abbrev target : TargetReg
target = record { post_div = 0; pre_div = 0; ref_sel = 1; enable = true }

root_rate-root_set_rate_example :
    deviation_of (root_rate 800000000 (root_set_rate 800000000 133000000 target)) 133000000
    ≤ deviation_of (divided 800000000 5 0) 133000000
root_rate-root_set_rate_example =
    root_rate-root_set_rate 800000000 133000000 target 5 0 (omega arith) (omega arith) (omega arith)
      (omega arith)
