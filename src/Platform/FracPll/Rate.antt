-- ===== src/Platform/FracPll/Rate.antt =====
-- How exactly a `Frac_pll` makes a rate, and which parent it takes.
use genode_imx.Base.{ℕ, ◌+◌, ◌-◌, ◌*◌, ◌/◌, ◌%◌, ◌^◌, ◌≡◌, ◌≤◌, ◌<◌, Bool, arith}
use native.Mathlib.Nat.{mul_comm}
use genode_imx.Platform.FracPll.{FracPll, div_int_of, div_frac_of, frac_set_rate, frac_rate}

-- Division by a number that is not 0.
abbrev pub Divides : (ℕ → ℕ → ℕ) → Type 0
Divides div = (a b : ℕ) → 0 < b → div a b ≡ a / b

-- The product of a quotient and its divisor.
quotient_bounds : (a b : ℕ) → 0 < b → (b * (a / b) ≤ a) × (a < b * (a / b) + b)
quotient_bounds a b pos = grind arith

-- The two parts of the rate that is read.
parts :
    (r q rem f pr : ℕ)
    → r ≡ pr * q + rem
    → pr * f ≤ rem * 2 ^ 24
    → rem * 2 ^ 24 < pr * f + pr
    → (pr * q / 2 + pr * f / 2 ^ 24 / 2 ≤ r / 2)
      × (r / 2 ≤ pr * q / 2 + pr * f / 2 ^ 24 / 2 + pr / 2 ^ 25 + 2)
parts r q rem f pr e low high = omega arith

quotient-le : (a b : ℕ) → a / (b + 1) ≤ a
quotient-le a b = grind arith

quotient-lt : (a b k : ℕ) → 0 < b → a < b * k → a / b < k
quotient-lt a b k pos low = grind arith

-- The fields that are written for a rate with the quotient `q` and the remainder `rem`.
div_int_lem :
    (div : ℕ → ℕ → ℕ) (r pr : ℕ)
    → Divides div
    → 0 < pr
    → r / pr ≤ 127
    → div_int_of div r pr ≡ r / pr
unfolding div_int_of
div_int_lem div r pr divides pos low = rw (divides r pr pos) (omega (arith, low))

div_frac_lem :
    (div : ℕ → ℕ → ℕ) (r pr : ℕ)
    → Divides div
    → 0 < pr
    → pr < 2 ^ 40
    → r < 2 ^ 64
    → let f = (r - r / pr * pr) * 2 ^ 24 / pr in
      (div_frac_of div r pr (r / pr) ≡ f)
      × (f < 2 ^ 24)
      × (r - r / pr * pr < pr)
      × (r / pr * pr ≤ r)
unfolding div_frac_of
div_frac_lem div r pr divides pos low wide =
    let (under, over) = quotient_bounds r pr pos in
    let q : ℕ = r / pr in
    let turned : q * pr ≡ pr * q = mul_comm q pr in
    let below : q * pr ≤ r = omega (arith, turned, under) in
    let small : r - q * pr < pr = omega (arith, turned, over) in
    let rem : (r + 2 ^ 64 - q * pr % 2 ^ 64) % 2 ^ 64 ≡ r - q * pr = omega (arith, below) in
    let fits : (r - q * pr) * 2 ^ 24 % 2 ^ 64 ≡ (r - q * pr) * 2 ^ 24 = omega (arith, small) in
    let f_low : (r - q * pr) * 2 ^ 24 / pr < 2 ^ 24 =
      quotient-lt _ pr (2 ^ 24) pos (omega (arith, small)) in
    (
      rw (rem, fits, divides ((r - q * pr) * 2 ^ 24) pr pos) (omega (arith, f_low)),
      f_low,
      small,
      below,
    )

-- The rate that such fields make.
read_lem :
    (r pr : ℕ)
    → 0 < pr
    → pr < 2 ^ 40
    → r < 2 ^ 64
    → 1 ≤ r / pr
    → r / pr ≤ 127
    → let f = (r - r / pr * pr) * 2 ^ 24 / pr in
      let read =
        ((pr * ((r / pr + 2 ^ 32 - 1) % 2 ^ 32 % 2 ^ 7 + 1)) % 2 ^ 64 / 2
          + (pr * (f % 2 ^ 24)) % 2 ^ 64 / 2 ^ 24 / 2)
        % 2 ^ 64 in
      (read ≤ r / 2) × (r / 2 ≤ read + pr / 2 ^ 25 + 2)
read_lem r pr pos low wide least most =
    let q : ℕ = r / pr in
    let f : ℕ = (r - q * pr) * 2 ^ 24 / pr in
    let (under, over) = quotient_bounds r pr pos in
    let turned : q * pr ≡ pr * q = mul_comm q pr in
    let (f_under, f_over) = quotient_bounds ((r - q * pr) * 2 ^ 24) pr pos in
    let small : r - q * pr < pr = omega (arith, turned, over) in
    let f_low : f < 2 ^ 24 = quotient-lt _ pr (2 ^ 24) pos (omega (arith, small)) in
    let int : (q + 2 ^ 32 - 1) % 2 ^ 32 % 2 ^ 7 + 1 ≡ q = omega (arith, least, most) in
    let frac : f % 2 ^ 24 ≡ f = omega (arith, f_low) in
    let first : (pr * q) % 2 ^ 64 ≡ pr * q = omega (arith, under) in
    let second : (pr * f) % 2 ^ 64 ≡ pr * f = omega (arith, f_under, small) in
    let (not_above, near) =
      parts r q (r - q * pr) f pr (omega (arith, turned, under)) f_under f_over in
    let sum : (pr * q / 2 + pr * f / 2 ^ 24 / 2) % 2 ^ 64 ≡ pr * q / 2 + pr * f / 2 ^ 24 / 2 =
      omega (arith, not_above) in
    rw (int, frac, first, second, sum) (not_above, near)

module _ (div : ℕ → ℕ → ℕ) (parent_rate rate : ℕ) (ack : ℕ → Bool) (c : FracPll) where
  -- The rate of the parent, divided and multiplied.
  abbrev pub reference : ℕ
  reference = parent_rate * 8 / (c.refclk_div_value + 1)

  -- The rate that is read after a rate was set is not above it, and below it by at most a
  -- 2 ^ 25th of the reference, and 2: if the reference goes one to 127 times into twice the rate.
  pub frac_rate-frac_set_rate :
      Divides div
      → parent_rate < 2 ^ 37
      → rate < 2 ^ 63
      → 0 < reference
      → 1 ≤ rate * 2 / reference
      → rate * 2 / reference ≤ 127
      → let read = frac_rate parent_rate (frac_set_rate div parent_rate rate ack c).0 in
        (read ≤ rate) × (rate ≤ read + reference / 2 ^ 25 + 2)
  unfolding frac_rate frac_set_rate
  frac_rate-frac_set_rate divides low wide pos least most =
      let r_same : (rate * 2) % 2 ^ 64 ≡ rate * 2 = omega arith in
      let p_same : (parent_rate * 8) % 2 ^ 64 ≡ parent_rate * 8 = omega arith in
      let pr_low : reference < 2 ^ 40 =
        omega (arith, quotient-le (parent_rate * 8) c.refclk_div_value) in
      let half : rate * 2 / 2 ≡ rate = omega arith in
      let int = div_int_lem div (rate * 2) reference divides pos most in
      let (frac, f_low, rem_low, under) =
        div_frac_lem div (rate * 2) reference divides pos pr_low (omega arith) in
      let near = read_lem (rate * 2) reference pos pr_low (omega arith) least most in
      rw (r_same, p_same, int, frac) (rw half at near)
