-- ===== src/Platform/Closest.antt =====
-- The search for the divisors of a root clock.
use genode_imx.Base.{
  ℕ, zero, suc, ◌+◌, ◌-◌, ◌%◌, ◌^◌, ◌≡◌, ◌≤◌, ◌<◌, ◌==◌, ltb, ap, arith, inl, inr, Bool-cases,
}
use genode_imx.Platform.Ccm.{
  TargetReg, divided, deviation_of, Best, try_divisors, try_posts, try_pres, root_set_rate,
  root_rate,
}

module _ (parent_rate rate : ℕ) where
  -- How far two divisors miss the rate.
  unfoldable pub miss : (pre post : ℕ) → ℕ
  miss pre post = deviation_of (divided parent_rate pre post) rate

  -- The divisors fit into their fields, and the deviation bounds what they miss.
  pub record IsFair (b : Best) : Type 0 where
    pub pre_low : b.pre_div < 8
    pub post_low : b.post_div < 64
    pub bound : miss b.pre_div b.post_div ≤ b.deviation

  try_divisors_lem :
      (pre post : ℕ) (b : Best)
      → pre < 8
      → post < 64
      → IsFair b
      → let c = try_divisors parent_rate rate pre post b in
        IsFair c × (c.deviation ≤ b.deviation) × (c.deviation ≤ miss pre post)
  unfolding miss
  try_divisors_lem pre post b low low' h =
      elim (Bool-cases (ltb (deviation_of (divided parent_rate pre post) rate) b.deviation)) [
        | inl better ↦ rw better (
          record { pre_low = low; post_low = low'; bound = omega arith },
          ground arith,
          omega arith,
        )
        | inr worse ↦ rw worse (h, omega arith, ground arith)
      ]

  try_posts_lem :
      (n pre post : ℕ) (b : Best)
      → pre < 8
      → post + n ≤ 64
      → IsFair b
      → let c = try_posts n pre post parent_rate rate b in
        IsFair c
        × (c.deviation ≤ b.deviation)
        × ((j : ℕ) → post ≤ j → j < post + n → c.deviation ≤ miss pre j)
  unfolding try_posts
  try_posts_lem zero pre post b low few h = (h, omega arith, λ j l g. absurd (omega arith))
  try_posts_lem (suc n) pre post b low few h = elim (Bool-cases (b.deviation == 0)) [
    | inl exact ↦ rw exact (h, omega arith, λ j l g. ground arith)
    | inr inexact ↦
        let (fair, less, here) = try_divisors_lem pre post b low (omega arith) h in
        let (fair', less', all) =
          try_posts_lem n pre (post + 1) (try_divisors parent_rate rate pre post b) low
            (omega arith) fair in
        rw inexact (
          fair',
          omega (arith, less, less'),
          λ j l g. elim (Bool-cases (j == post)) [
            | inl hit ↦
                let same : j ≡ post = ground arith in omega (arith, less', here, ap (miss pre) same)
            | inr miss_it ↦ all j (ground arith) (omega arith)
          ],
        )
  ]

  try_pres_lem :
      (n pre : ℕ) (b : Best)
      → pre + n ≤ 8
      → IsFair b
      → let c = try_pres n pre parent_rate rate b in
        IsFair c
        × (c.deviation ≤ b.deviation)
        × ((i j : ℕ) → pre ≤ i → i < pre + n → j < 64 → c.deviation ≤ miss i j)
  unfolding try_pres
  try_pres_lem zero pre b few h = (h, omega arith, λ i j l g k. absurd (omega arith))
  try_pres_lem (suc n) pre b few h = elim (Bool-cases (b.deviation == 0)) [
    | inl exact ↦ rw exact (h, omega arith, λ i j l g k. ground arith)
    | inr inexact ↦
        let (fair, less, here) = try_posts_lem 64 pre 0 b (omega arith) (omega arith) h in
        let (fair', less', all) =
          try_pres_lem n (pre + 1) (try_posts 64 pre 0 parent_rate rate b) (omega arith) fair in
        rw inexact (
          fair',
          omega (arith, less, less'),
          λ i j l g k. elim (Bool-cases (i == pre)) [
            | inl hit ↦
                let same : i ≡ pre = ground arith in
                omega (arith, less', here j (omega arith) k, ap (λ p. miss p j) same)
            | inr miss_it ↦ all i j (ground arith) (omega arith) k
          ],
        )
  ]

  abbrev first : Best
  first = record { pre_div = 0; post_div = 0; deviation = 2 ^ 64 - 1 }

  first-IsFair : parent_rate < 2 ^ 64 → rate < 2 ^ 64 → IsFair first
  unfolding miss divided deviation_of
  first-IsFair wide wide' = record {
    pre_low = omega arith;
    post_low = omega arith;
    bound = ground arith;
  }

  -- Setting the rate of a root clock picks, of all pairs of divisors that the fields can hold, one
  -- whose rate is closest to the wanted one: the rate that is read afterwards misses it by no more
  -- than any other pair's would. The rates are 64 bit wide.
  pub root_rate-root_set_rate :
      (t : TargetReg) (pre post : ℕ)
      → parent_rate < 2 ^ 64
      → rate < 2 ^ 64
      → pre < 8
      → post < 64
      → deviation_of (root_rate parent_rate (root_set_rate parent_rate rate t)) rate
        ≤ deviation_of (divided parent_rate pre post) rate
  unfolding miss root_rate root_set_rate
  root_rate-root_set_rate t pre post wide wide' low low' =
      let (fair, less, all) = try_pres_lem 8 0 first (omega arith) (first-IsFair wide wide') in
      let b = try_pres 8 0 parent_rate rate first in
      let pre_fits : b.pre_div % 2 ^ 3 ≡ b.pre_div = omega (arith, fair.pre_low) in
      let post_fits : b.post_div % 2 ^ 6 ≡ b.post_div = omega (arith, fair.post_low) in
      rw (pre_fits, post_fits)
        (omega (arith, fair.bound, all pre post (omega arith) (omega arith) low'))
