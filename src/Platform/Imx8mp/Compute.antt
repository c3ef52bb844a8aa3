-- ===== src/Platform/Imx8mp/Compute.antt =====
-- `Frac_pll1443` of src/drivers/platform/imx8mp/ccm.cc: how a configuration for a rate is found
-- and written.
use genode_imx.Base.{
  ℕ, zero, suc, ◌+◌, ◌-◌, ◌%◌, ◌^◌, Bool, ◌==◌, ltb, leb, ◌&&◌, if◌then◌else◌, List, [], ◌∷◌, ◌++◌,
}
use genode_imx.Platform.Imx8mp.Pll14xx.{
  Pll14xx, Config, Access, write_reset, write_bypass, write_pre_div, write_main_div, write_post_div,
  write_dsm, wait_lock, compute_rate, compute_kdiv, read_config, calc_config,
}

-- The variables of the search in `Frac_pll1443::_compute`.
pub record Best : Type 0 where
  pub cfg : Config
  pub deviation : ℕ

-- The distance as it is computed: the sign bit of the difference is cleared.
unfoldable pub distance : (fout rate : ℕ) → ℕ
distance fout rate = ((fout + 2 ^ 64 - rate) % 2 ^ 64) % 2 ^ 63

module _ (div : ℕ → ℕ → ℕ) (fin fout : ℕ) where
  -- The body of the loops
  abbrev pub try_config : (pdiv sdiv : ℕ) → Best → Best
  try_config pdiv sdiv b =
      let calc_cfg = calc_config div fin fout pdiv sdiv in
      let dist = distance fout calc_cfg.rate in
      if ltb dist b.deviation then record { cfg = calc_cfg; deviation = dist } else b

  -- The loop over the scaler, from `sdiv` on.
  unfoldable pub try_sdivs : (rounds pdiv sdiv : ℕ) → Best → Best
  try_sdivs zero pdiv sdiv b = b
  try_sdivs (suc n) pdiv sdiv b =
      let tried = try_config pdiv sdiv b in
      let next = try_sdivs n pdiv (sdiv + 1) tried in if tried.deviation == 0 then tried else next

  -- The loop over the divider, from `pdiv` on: it ends where the inner loop has returned.
  unfoldable pub try_pdivs : (rounds pdiv : ℕ) → Best → Best
  try_pdivs zero pdiv b = b
  try_pdivs (suc n) pdiv b =
      let tried = try_sdivs 7 pdiv 0 b in
      let next = try_pdivs n (pdiv + 1) tried in if tried.deviation == 0 then tried else next

  -- The rates that the divider and the scaler in use can be fitted to.
  unfoldable pub in_window : Config → Bool
  in_window cfg =
      leb fout (compute_rate div fin cfg.pdiv cfg.mdiv cfg.sdiv 32767)
      && leb (compute_rate div fin cfg.pdiv cfg.mdiv cfg.sdiv 32768) fout

  -- `Frac_pll1443::_compute`
  unfoldable pub compute : Pll14xx → Config
  unfolding in_window
  compute p =
      let cfg = read_config div fin p in
      let kdiv = compute_kdiv div fin cfg.pdiv cfg.mdiv cfg.sdiv fout in
      let fitted : Config = record cfg {
        kdiv = kdiv;
        rate = compute_rate div fin cfg.pdiv cfg.mdiv cfg.sdiv kdiv;
      } in
      let searched = (try_pdivs 65 0 (record { cfg = cfg; deviation = 2 ^ 63 - 1 })).cfg in
      if in_window cfg then fitted else searched

  -- `Frac_pll1443::rate`, which sets it.
  unfoldable pub set_rate_1443 : (lock : ℕ → Bool) → Pll14xx → List Access
  set_rate_1443 lock p =
      let cfg = compute p in
      if cfg.pdiv == p.pre_div && cfg.mdiv == p.main_div
      then write_post_div (cfg.sdiv % 2 ^ 32) ∷ write_dsm cfg.kdiv ∷ []
      else write_reset 0
        ∷ write_bypass 1
        ∷ write_pre_div (cfg.pdiv % 2 ^ 32)
        ∷ write_main_div (cfg.mdiv % 2 ^ 32)
        ∷ write_post_div (cfg.sdiv % 2 ^ 32)
        ∷ write_dsm cfg.kdiv
        ∷ write_reset 1
        ∷ (wait_lock 1024 0 lock ++ write_bypass 0 ∷ [])

-- `Frac_pll1443::rate`, which reads it.
unfoldable pub rate_1443 : (div : ℕ → ℕ → ℕ) (fin : ℕ) → Pll14xx → ℕ
rate_1443 div fin p = (read_config div fin p).rate
