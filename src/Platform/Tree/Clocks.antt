-- ===== src/Platform/Tree/Clocks.antt =====
-- The kinds of clocks that ccm.h of src/drivers/platform/imx8mq and imx8mp declares, and how the rate of a clock
-- is found: it asks its parent, which is declared before it. A tree is the list of the clocks with
-- the latest first. A clock stands for itself by its name.
use Prim.Native.String.{String}
use text.Mathlib.Text.{◌==◌ as str_eq}
use genode_imx.Base.{ℕ, ◌+◌, ◌*◌, true, false, Option, none, some, List, [], ◌∷◌, get_or}
use genode_imx.Platform.Ccm.{SccgPll, TargetReg, sccg_rate, root_rate, divider_rate}
use genode_imx.Platform.Imx8mp.Pll14xx.{Pll14xx, parent_rate, rate_1416}
use genode_imx.Platform.Imx8mp.Compute.{rate_1443}
use genode_imx.Platform.FracPll.{FracPll, parent_name, frac_rate}

-- A clock with its name, the number of its registers, and its parents
pub data Clock : Type 0 where
  fixed : String → ℕ → Clock
  frac_pll : String → ℕ → Clock
  sccg_pll : String → ℕ → Clock
  frac_pll1443 : String → ℕ → Clock
  frac_pll1416 : String → ℕ → Clock
  divider : String → String → ℕ → Clock
  root : String → ℕ → List String → Clock
  root_divider : String → ℕ → String → Clock
  gate : String → ℕ → String → Clock

unfoldable pub name_of : Clock → String
name_of (fixed name rate) = name
name_of (frac_pll name nr) = name
name_of (sccg_pll name nr) = name
name_of (frac_pll1443 name pll) = name
name_of (frac_pll1416 name pll) = name
name_of (divider name parent value) = name
name_of (root name nr refs) = name
name_of (root_divider name nr parent) = name
name_of (gate name nr parent) = name

-- `frac_pll_range`, `sccg_pll_range`, `gate_range` and `root_range`: the address of the registers,
-- 0 for a clock without any.
unfoldable pub range_of : Clock → ℕ
range_of (fixed name rate) = 0
range_of (frac_pll name nr) = 0x30360000 + nr * 0x8
range_of (sccg_pll name nr) = 0x30360000 + (0x30 + nr * 0xc)
range_of (frac_pll1443 name pll) = 0x30360000 + pll
range_of (frac_pll1416 name pll) = 0x30360000 + pll
range_of (divider name parent value) = 0
range_of (root name nr refs) = 0x30380000 + (0x8000 + nr * 0x80)
range_of (root_divider name nr parent) = 0x30380000 + (0x8000 + nr * 0x80)
range_of (gate name nr parent) = 0x30380000 + (0x4000 + nr * 0x10)

-- The registers of the clocks, by name; what a fixed divider makes of a rate is the
-- library's, and `div` is the division of the PLLs.
pub record Registers : Type 0 where
  pub frac : String → FracPll
  pub sccg : String → SccgPll
  pub sccg_ref_sel : String → ℕ
  pub pll14xx : String → Pll14xx
  pub target : String → TargetReg
  pub post_div : String → ℕ
  pub fixed_divider : ℕ → ℕ → ℕ
  pub div : ℕ → ℕ → ℕ

-- The rate of a parent that is looked for by its name: 0, if there is none.
abbrev pub rate_or_zero : Option ℕ → ℕ
rate_or_zero none = 0
rate_or_zero (some rate) = rate

abbrev pub divided_by : (ℕ → ℕ) → Option ℕ → Option ℕ
divided_by f none = none
divided_by f (some rate) = some (f rate)

-- The rate of the clock with a name, by the `rate` of its kind; `none`, if there is no such clock or
-- a parent is missing.
unfoldable pub rate_of : Registers → List Clock → String → Option ℕ
rate_of regs [] name = none
rate_of regs (fixed n rate ∷ earlier) name =
    let other = rate_of regs earlier name in
    elim (str_eq n name) [ true ↦ some rate | false ↦ other ]
rate_of regs (frac_pll n nr ∷ earlier) name =
    let other = rate_of regs earlier name in
    let parent = rate_of regs earlier (parent_name (regs.frac n).ref_sel) in
    elim (str_eq n name) [
      | true ↦ some (frac_rate (rate_or_zero parent) (regs.frac n))
      | false ↦ other
    ]
rate_of regs (sccg_pll n nr ∷ earlier) name =
    let other = rate_of regs earlier name in
    let parent = rate_of regs earlier (parent_name (regs.sccg_ref_sel n)) in
    elim (str_eq n name) [
      | true ↦ some (sccg_rate (rate_or_zero parent) (regs.sccg n))
      | false ↦ other
    ]
rate_of regs (frac_pll1443 n pll ∷ earlier) name =
    let other = rate_of regs earlier name in
    let fin = parent_rate (λ p. rate_of regs earlier p) (regs.pll14xx n) in
    elim (str_eq n name) [ true ↦ some (rate_1443 regs.div fin (regs.pll14xx n)) | false ↦ other ]
rate_of regs (frac_pll1416 n pll ∷ earlier) name =
    let other = rate_of regs earlier name in
    elim (str_eq n name) [ true ↦ some (rate_1416 (regs.pll14xx n)) | false ↦ other ]
rate_of regs (divider n parent value ∷ earlier) name =
    let other = rate_of regs earlier name in
    let rate = rate_of regs earlier parent in
    elim (str_eq n name) [
      | true ↦ divided_by (λ r. regs.fixed_divider r value) rate
      | false ↦ other
    ]
rate_of regs (root n nr refs ∷ earlier) name =
    let other = rate_of regs earlier name in
    let rate = rate_of regs earlier (get_or refs (regs.target n).ref_sel "") in
    elim (str_eq n name) [
      | true ↦ divided_by (λ r. root_rate r (regs.target n)) rate
      | false ↦ other
    ]
rate_of regs (root_divider n nr parent ∷ earlier) name =
    let other = rate_of regs earlier name in
    let rate = rate_of regs earlier parent in
    elim (str_eq n name) [
      | true ↦ divided_by (λ r. divider_rate r (regs.post_div n)) rate
      | false ↦ other
    ]
rate_of regs (gate n nr parent ∷ earlier) name =
    let other = rate_of regs earlier name in
    let rate = rate_of regs earlier parent in elim (str_eq n name) [ true ↦ rate | false ↦ other ]
