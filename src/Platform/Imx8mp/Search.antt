-- ===== src/Platform/Imx8mp/Search.antt =====
-- The search of a `Frac_pll1443`, and what its results look like.
use genode_imx.Base.{
  ℕ, zero, suc, ◌+◌, ◌-◌, ◌^◌, ◌≡◌, ◌≤◌, ◌<◌, false, ◌==◌, ltb, refl, ap, arith, inl, inr,
  Bool-cases,
}
use genode_imx.Platform.Imx8mp.Pll14xx.{
  Pll14xx, Config, compute_rate, compute_kdiv, read_config, clamp_mdiv, calc_config,
}
use genode_imx.Platform.Imx8mp.Compute.{
  Best, distance, try_config, try_sdivs, try_pdivs, in_window, compute,
}

-- The fields of the registers hold what fits them.
pub record Fits (p : Pll14xx) : Type 0 where
  pub pre_low : p.pre_div < 2 ^ 6
  pub main_low : p.main_div < 2 ^ 10
  pub post_low : p.post_div < 2 ^ 3
  pub dsm_low : p.dsm < 2 ^ 16

module _ (div : ℕ → ℕ → ℕ) (fin fout : ℕ) where
  -- A configuration that can be written, but for a divider of 64, and whose rate is the one that
  -- its divisors make.
  pub record IsSound (c : Config) : Type 0 where
    pub pdiv_low : c.pdiv < 65
    pub mdiv_low : c.mdiv < 2 ^ 10
    pub sdiv_low : c.sdiv < 2 ^ 3
    pub kdiv_low : c.kdiv < 2 ^ 16
    pub made : c.rate ≡ compute_rate div fin c.pdiv c.mdiv c.sdiv c.kdiv

  compute_kdiv-lt : (pdiv mdiv sdiv : ℕ) → compute_kdiv div fin pdiv mdiv sdiv fout < 2 ^ 16
  unfolding compute_kdiv
  compute_kdiv-lt pdiv mdiv sdiv = ground arith

  calc_config-IsSound :
      (pdiv sdiv : ℕ) → pdiv < 65 → sdiv < 7 → IsSound (calc_config div fin fout pdiv sdiv)
  unfolding calc_config clamp_mdiv
  calc_config-IsSound pdiv sdiv low low' = record {
    pdiv_low = low;
    mdiv_low = ground arith;
    sdiv_low = omega arith;
    kdiv_low = compute_kdiv-lt _ _ _;
    made = refl;
  }

  -- What is known of the best configuration so far.
  record IsFair (b : Best) : Type 0 where
    sound : IsSound b.cfg
    bound : distance fout b.cfg.rate ≤ b.deviation

  -- How far the candidate for a divider and a scaler is from the wanted rate.
  abbrev miss : (pdiv sdiv : ℕ) → ℕ
  miss pdiv sdiv = distance fout (calc_config div fin fout pdiv sdiv).rate

  try_config_lem :
      (pdiv sdiv : ℕ) (b : Best)
      → pdiv < 65
      → sdiv < 7
      → IsFair b
      → let c = try_config div fin fout pdiv sdiv b in
        IsFair c × (c.deviation ≤ b.deviation) × (c.deviation ≤ miss pdiv sdiv)
  try_config_lem pdiv sdiv b low low' h = elim (Bool-cases (ltb (miss pdiv sdiv) b.deviation)) [
    | inl better ↦ rw better (
      record { sound = calc_config-IsSound pdiv sdiv low low'; bound = omega arith },
      ground arith,
      omega arith,
    )
    | inr worse ↦ rw worse (h, omega arith, ground arith)
  ]

  try_sdivs_lem :
      (n pdiv sdiv : ℕ) (b : Best)
      → pdiv < 65
      → sdiv + n ≤ 7
      → IsFair b
      → let c = try_sdivs div fin fout n pdiv sdiv b in
        IsFair c
        × (c.deviation ≤ b.deviation)
        × ((j : ℕ) → sdiv ≤ j → j < sdiv + n → c.deviation ≤ miss pdiv j)
  unfolding try_sdivs
  try_sdivs_lem zero pdiv sdiv b low few h = (h, omega arith, λ j l g. absurd (omega arith))
  try_sdivs_lem (suc n) pdiv sdiv b low few h =
      let (fair, less, here) = try_config_lem pdiv sdiv b low (omega arith) h in
      let tried = try_config div fin fout pdiv sdiv b in
      elim (Bool-cases (tried.deviation == 0)) [
        | inl exact ↦ rw exact (fair, less, λ j l g. ground arith)
        | inr inexact ↦
            let (fair', less', all) =
              try_sdivs_lem n pdiv (sdiv + 1) tried low (omega arith) fair in
            rw inexact (
              fair',
              omega (arith, less, less'),
              λ j l g. elim (Bool-cases (j == sdiv)) [
                | inl hit ↦
                    let same : j ≡ sdiv = ground arith in
                    omega (arith, less', here, ap (miss pdiv) same)
                | inr other ↦ all j (ground arith) (omega arith)
              ],
            )
      ]

  try_pdivs_lem :
      (n pdiv : ℕ) (b : Best)
      → pdiv + n ≤ 65
      → IsFair b
      → let c = try_pdivs div fin fout n pdiv b in
        IsFair c
        × (c.deviation ≤ b.deviation)
        × ((i j : ℕ) → pdiv ≤ i → i < pdiv + n → j < 7 → c.deviation ≤ miss i j)
  unfolding try_pdivs
  try_pdivs_lem zero pdiv b few h = (h, omega arith, λ i j l g k. absurd (omega arith))
  try_pdivs_lem (suc n) pdiv b few h =
      let (fair, less, here) = try_sdivs_lem 7 pdiv 0 b (omega arith) (omega arith) h in
      let tried = try_sdivs div fin fout 7 pdiv 0 b in
      elim (Bool-cases (tried.deviation == 0)) [
        | inl exact ↦ rw exact (fair, less, λ i j l g k. ground arith)
        | inr inexact ↦
            let (fair', less', all) = try_pdivs_lem n (pdiv + 1) tried (omega arith) fair in
            rw inexact (
              fair',
              omega (arith, less, less'),
              λ i j l g k. elim (Bool-cases (i == pdiv)) [
                | inl hit ↦
                    let same : i ≡ pdiv = ground arith in
                    omega (arith, less', here j (omega arith) k, ap (λ p. miss p j) same)
                | inr other ↦ all i j (ground arith) (omega arith) k
              ],
            )
      ]

  module _ (p : Pll14xx) (fits : Fits p) where
    abbrev first : Best
    first = record { cfg = read_config div fin p; deviation = 2 ^ 63 - 1 }

    first-IsFair : IsFair first
    unfolding read_config distance
    first-IsFair = record {
      sound = record {
        pdiv_low = omega (arith, fits.pre_low);
        mdiv_low = fits.main_low;
        sdiv_low = fits.post_low;
        kdiv_low = fits.dsm_low;
        made = refl;
      };
      bound = omega arith;
    }

    -- Where the rate is out of the window, no candidate is closer than the result.
    pub compute-closest :
        in_window div fin fout (read_config div fin p) ≡ false
        → (pdiv sdiv : ℕ) → pdiv ≤ 64
        → sdiv ≤ 6
        → distance fout (compute div fin fout p).rate
          ≤ distance fout (calc_config div fin fout pdiv sdiv).rate
    unfolding compute
    compute-closest outside pdiv sdiv low low' =
        let (fair, less, all) = try_pdivs_lem 65 0 first (omega arith) first-IsFair in
        rw outside
          (omega (arith, fair.bound, all pdiv sdiv (omega arith) (omega arith) (omega arith)))

    pub compute-IsSound : IsSound (compute div fin fout p)
    unfolding compute read_config
    compute-IsSound = elim (Bool-cases (in_window div fin fout (read_config div fin p))) [
      | inl inside ↦ rw inside (record {
        pdiv_low = omega (arith, fits.pre_low);
        mdiv_low = fits.main_low;
        sdiv_low = fits.post_low;
        kdiv_low = compute_kdiv-lt _ _ _;
        made = refl;
      })
      | inr outside ↦ rw outside (try_pdivs_lem 65 0 first (omega arith) first-IsFair).0.sound
    ]
