-- ===== src/Platform/Imx8mp/Fraction.antt =====
-- Setting and reading the rate of a `Frac_pll1443`.
use genode_imx.Base.{
  ℕ, ◌%◌, ◌^◌, ◌≡◌, ◌≤◌, ◌<◌, Bool, true, false, ◌==◌, ◌&&◌, refl, sym, arith, inl, inr, Bool-cases,
}
use genode_imx.Platform.Imx8mp.Pll14xx.{
  Pll14xx, Config, perform, perform_all, read_config, calc_config,
}
use genode_imx.Platform.Imx8mp.Compute.{distance, in_window, compute, set_rate_1443, rate_1443}
use genode_imx.Platform.Imx8mp.Safety.{changed_1443}
use genode_imx.Platform.Imx8mp.Search.{Fits, IsSound, compute-IsSound, compute-closest}

module _ (div : ℕ → ℕ → ℕ) (fin fout : ℕ) (lock : ℕ → Bool) (p : Pll14xx) (fits : Fits p) where
  -- The registers after the rate was set.
  abbrev pub after : Pll14xx
  after = perform_all (set_rate_1443 div fin fout lock p) p

  -- The configuration that is computed.
  abbrev pub computed : Config
  computed = compute div fin fout p

  after-fields :
      (after.pre_div ≡ computed.pdiv % 2 ^ 6)
      × (after.main_div ≡ computed.mdiv)
      × (after.post_div ≡ computed.sdiv)
      × (after.dsm ≡ computed.kdiv)
  unfolding set_rate_1443 perform perform_all
  after-fields =
      let c : Config = computed in
      let sound : IsSound div fin fout c = compute-IsSound div fin fout p fits in
      let main : c.mdiv % 2 ^ 32 % 2 ^ 10 ≡ c.mdiv = omega (arith, sound.mdiv_low) in
      let post : c.sdiv % 2 ^ 32 % 2 ^ 3 ≡ c.sdiv = omega (arith, sound.sdiv_low) in
      let k : c.kdiv % 2 ^ 16 ≡ c.kdiv = omega (arith, sound.kdiv_low) in
      elim (Bool-cases (c.pdiv == p.pre_div && c.mdiv == p.main_div)) [
        | inl kept ↦
            let low : p.pre_div < 64 = fits.pre_low in
            let pre : p.pre_div ≡ c.pdiv % 2 ^ 6 = ground arith in
            let same : p.main_div ≡ c.mdiv = ground arith in rw kept (pre, same, post, k)
        | inr changed ↦
            rw
              (
                changed,
                changed_1443 lock (c.pdiv % 2 ^ 32) (c.mdiv % 2 ^ 32) (c.sdiv % 2 ^ 32) c.kdiv p,
              )
              (omega (arith, sound.pdiv_low), main, post, k)
      ]

  rate-after : computed.pdiv < 64 → rate_1443 div fin after ≡ computed.rate
  unfolding rate_1443 read_config
  rate-after low =
      let (pre, main, post, k) = after-fields in
      let sound = compute-IsSound div fin fout p fits in
      let pre' : after.pre_div ≡ computed.pdiv = omega (arith, pre) in
      rw (pre', main, post, k) (sym sound.made)

  inside-after :
      in_window div fin fout (read_config div fin p) ≡ true → after ≡ record p { dsm = after.dsm }
  unfolding compute read_config set_rate_1443 perform perform_all
  inside-after inside =
      let pre : (p.pre_div == p.pre_div) ≡ true = ground arith in
      let main : (p.main_div == p.main_div) ≡ true = ground arith in
      let post : p.post_div % 2 ^ 32 % 2 ^ 3 ≡ p.post_div = omega (arith, fits.post_low) in
      rw (inside, pre, main, post) refl

  -- The rate that is read after a rate was set is that of the computed configuration, if its
  -- divider is below 64; a divider of 64 is written as 0. If the rate can be made by fitting the
  -- fraction alone, nothing but the fraction changes. The fields of the registers fit their widths
  -- before.
  pub rate_1443-set_rate_1443 :
      (computed.pdiv < 64 → rate_1443 div fin after ≡ computed.rate)
      × (computed.pdiv ≡ 64 → after.pre_div ≡ 0)
      × (in_window div fin fout (read_config div fin p) ≡ true
          → after ≡ record p { dsm = after.dsm })
  rate_1443-set_rate_1443 = (rate-after, λ e. omega (arith, after-fields.0), inside-after)

  -- If a rate is out of the window, the rate that is read after it was set is not above it, and no
  -- candidate of the search, with a divider of at most 64 and a scaler of at most 6, that is not
  -- above it either comes closer: where such a candidate exists, the rates are below 2 ^ 62, and
  -- the divider that is found is below 64.
  pub rate_1443-greatest :
      (pdiv sdiv : ℕ)
      → in_window div fin fout (read_config div fin p) ≡ false
      → computed.pdiv < 64
      → pdiv ≤ 64
      → sdiv ≤ 6
      → fout < 2 ^ 62
      → computed.rate < 2 ^ 62
      → (calc_config div fin fout pdiv sdiv).rate ≤ fout
      → ((calc_config div fin fout pdiv sdiv).rate ≤ rate_1443 div fin after)
        × (rate_1443 div fin after ≤ fout)
  unfolding distance
  rate_1443-greatest pdiv sdiv outside found low low' wide wide' below =
      let close = compute-closest div fin fout p fits outside pdiv sdiv low low' in
      rw (rate-after found) (omega arith, omega arith)
