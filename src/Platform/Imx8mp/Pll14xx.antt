-- ===== src/Platform/Imx8mp/Pll14xx.antt =====
-- `Pll14xx`, `Frac_pll1416` and `Frac_pll1443` of src/drivers/platform/imx8mp/ccm.h and ccm.cc.
-- An operation that writes registers is the list of its accesses in their order, and `perform` is
-- what they do to the fields. A rate is 64 bit wide, and an int16_t is its bit pattern. What a
-- division by 0 gives is left to the parameter `div`, and the lock signal to `lock`.
use Prim.Native.String.{String}
use text.Mathlib.Text.{◌==◌ as str_eq}
use genode_imx.Base.{
  ℕ, zero, suc, ◌+◌, ◌-◌, ◌*◌, ◌/◌, ◌%◌, ◌^◌, Bool, true, false, ◌==◌, ltb, leb, ◌&&◌,
  if◌then◌else◌, Option, none, some, List, [], ◌∷◌, ◌++◌,
}

-- The fields of `Pll14xx::Gen_ctrl`, `Fdiv_ctl0` and `Fdiv_ctl1`
pub record Pll14xx : Type 0 where
  pub ref_clk_select : ℕ
  pub bypass : ℕ
  pub reset : ℕ
  pub gating_enable : ℕ
  pub post_div : ℕ
  pub pre_div : ℕ
  pub main_div : ℕ
  pub dsm : ℕ

-- `Pll14xx::Config`
pub record Config : Type 0 where
  pub rate : ℕ
  pub pdiv : ℕ
  pub mdiv : ℕ
  pub sdiv : ℕ
  pub kdiv : ℕ

-- `Config::operator==`, which leaves the rate aside.
unfoldable pub config_eq : Config → Config → Bool
config_eq c other =
    other.pdiv == c.pdiv && (other.mdiv == c.mdiv && (other.sdiv == c.sdiv && other.kdiv == c.kdiv))

-- `Pll14xx::parent`: the name by which it looks for the parent.
unfoldable pub ref_clk_name : Pll14xx → String
ref_clk_name p =
    if p.ref_clk_select == 0 then "24m_ref_clk" else if p.ref_clk_select == 1 then "no_clk" else ""

-- `Pll14xx::parent`, which applies a function to the parent: its rate by `Pll14xx::parent_rate`,
-- where `clocks` gives the rate of a clock that exists.
unfoldable pub parent_rate : (clocks : String → Option ℕ) → Pll14xx → ℕ
parent_rate clocks p = elim (clocks (ref_clk_name p)) [ none ↦ 0 | some rate ↦ rate ]

-- `Pll14xx::parent`, which selects one.
unfoldable pub set_parent : (name : String) → Pll14xx → Pll14xx × String
set_parent name p =
    if str_eq name "24m_ref_clk"
    then (record p { ref_clk_select = 0 }, name)
    else (record p { ref_clk_select = 1 }, "clk_pad")

-- An access to a register that the setting of a rate makes
pub data Access : Type 0 where
  write_reset : ℕ → Access
  write_bypass : ℕ → Access
  write_pre_div : ℕ → Access
  write_main_div : ℕ → Access
  write_post_div : ℕ → Access
  write_dsm : ℕ → Access
  read_lock_signal : Bool → Access

-- The bit fields, which cut off what they cannot hold.
unfoldable pub perform : Access → Pll14xx → Pll14xx
perform (write_reset v) p = record p { reset = v % 2 ^ 1 }
perform (write_bypass v) p = record p { bypass = v % 2 ^ 1 }
perform (write_pre_div v) p = record p { pre_div = v % 2 ^ 6 }
perform (write_main_div v) p = record p { main_div = v % 2 ^ 10 }
perform (write_post_div v) p = record p { post_div = v % 2 ^ 3 }
perform (write_dsm v) p = record p { dsm = v % 2 ^ 16 }
perform (read_lock_signal b) p = p

-- A sequence of accesses.
unfoldable pub perform_all : List Access → Pll14xx → Pll14xx
unfolding perform
perform_all [] p = p
perform_all (a ∷ rest) p = perform_all rest (perform a p)

-- The loop that waits for the lock, with `left` rounds until the count is 1024.
unfoldable pub wait_lock : (left count : ℕ) → (lock : ℕ → Bool) → List Access
wait_lock zero count lock = read_lock_signal (lock count) ∷ []
wait_lock (suc left) count lock =
    let rest = read_lock_signal false ∷ wait_lock left (count + 1) lock in
    if lock count then read_lock_signal true ∷ [] else rest

abbrev pub entry : (rate pdiv mdiv sdiv : ℕ) → Config
entry rate pdiv mdiv sdiv = record { rate = rate; pdiv = pdiv; mdiv = mdiv; sdiv = sdiv; kdiv = 0 }

-- `Config` with its defaults
abbrev pub no_config : Config
no_config = entry 0 0 0 0

-- `pll1446_pre_calc_tbl`
abbrev pub pll1446_pre_calc_tbl : List Config
pll1446_pre_calc_tbl =
    entry 1800000000 3 225 0
    ∷ entry 1600000000 3 200 0
    ∷ entry 1500000000 3 375 1
    ∷ entry 1400000000 3 350 1
    ∷ entry 1200000000 3 300 1
    ∷ entry 1200000000 2 200 1
    ∷ entry 1000000000 3 250 1
    ∷ entry 800000000 3 200 1
    ∷ entry 800000000 3 400 2
    ∷ entry 750000000 2 250 2
    ∷ entry 700000000 3 350 2
    ∷ entry 600000000 3 300 2
    ∷ []

-- The loop over the table in `Frac_pll1416::rate`, which sets it.
unfoldable pub pre_calc : (rate : ℕ) → List Config → Config → Config
pre_calc rate [] cfg = cfg
pre_calc rate (elem ∷ rest) cfg = pre_calc rate rest (if rate == elem.rate then elem else cfg)

-- `Frac_pll1416::rate`, which sets it.
unfoldable pub set_rate_1416 : (lock : ℕ → Bool) → (rate : ℕ) → List Access
unfolding pre_calc
set_rate_1416 lock rate =
    let cfg = pre_calc rate pll1446_pre_calc_tbl no_config in
    if cfg.rate == 0
    then []
    else write_reset 0
      ∷ write_bypass 1
      ∷ write_pre_div cfg.pdiv
      ∷ write_main_div cfg.mdiv
      ∷ write_post_div cfg.sdiv
      ∷ write_reset 1
      ∷ (wait_lock 1024 0 lock ++ write_bypass 0 ∷ [])

-- The loop over the table in `Frac_pll1416::rate`, which reads it.
unfoldable pub rate_of_config : (cfg : Config) → List Config → ℕ
unfolding config_eq
rate_of_config cfg [] = 0
rate_of_config cfg (elem ∷ rest) = if config_eq cfg elem then elem.rate else rate_of_config cfg rest

-- `Frac_pll1416::rate`, which reads it.
unfoldable pub rate_1416 : Pll14xx → ℕ
unfolding rate_of_config
rate_1416 p = rate_of_config (entry 0 p.pre_div p.main_div p.post_div) pll1446_pre_calc_tbl

-- An int16_t that becomes an uint64_t.
abbrev pub extended : ℕ → ℕ
extended k = if ltb k (2 ^ 15) then k else k + 2 ^ 64 - 2 ^ 16

module _ (div : ℕ → ℕ → ℕ) (fin : ℕ) where
  -- `Frac_pll1443::_compute_rate`
  unfoldable pub compute_rate : (pdiv mdiv sdiv kdiv : ℕ) → ℕ
  compute_rate pdiv mdiv sdiv kdiv =
      div ((fin * ((mdiv * 65536 + extended kdiv) % 2 ^ 64)) % 2 ^ 64)
        ((pdiv * 65536 * 2 ^ sdiv) % 2 ^ 64)

  -- `Frac_pll1443::_compute_kdiv`: a difference of 2 ^ 63 and more is negative.
  unfoldable pub compute_kdiv : (pdiv mdiv sdiv fout : ℕ) → ℕ
  compute_kdiv pdiv mdiv sdiv fout =
      let wanted = div ((fout * ((pdiv * 65536 * 2 ^ sdiv) % 2 ^ 64) + fin / 2) % 2 ^ 64) fin in
      let kdiv = (wanted + 2 ^ 64 - (mdiv * 65536) % 2 ^ 64) % 2 ^ 64 in
      if leb (2 ^ 63) kdiv && ltb kdiv (2 ^ 64 - 32768)
      then 32768
      else if ltb kdiv (2 ^ 63) && ltb 32767 kdiv
      then 32767
      else kdiv % 2 ^ 16

  -- `Frac_pll1443::_read`
  unfoldable pub read_config : Pll14xx → Config
  read_config p = record {
    rate = compute_rate p.pre_div p.main_div p.post_div p.dsm;
    pdiv = p.pre_div;
    mdiv = p.main_div;
    sdiv = p.post_div;
    kdiv = p.dsm;
  }

  -- `clamp`, at the limits of the main divider.
  unfoldable pub clamp_mdiv : ℕ → ℕ
  clamp_mdiv m = if ltb m 64 then 64 else if ltb 1023 m then 1023 else m

  -- The configuration that the body of the loops computes for a divider and a scaler.
  unfoldable pub calc_config : (fout pdiv sdiv : ℕ) → Config
  unfolding clamp_mdiv
  calc_config fout pdiv sdiv =
      let mdiv = clamp_mdiv (div ((fout * (pdiv * 2 ^ sdiv)) % 2 ^ 64) fin) in
      let kdiv = compute_kdiv pdiv mdiv sdiv fout in
      record {
        rate = compute_rate pdiv mdiv sdiv kdiv;
        pdiv = pdiv;
        mdiv = mdiv;
        sdiv = sdiv;
        kdiv = kdiv;
      }
