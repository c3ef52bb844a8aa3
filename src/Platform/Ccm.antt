-- ===== src/Platform/Ccm.antt =====
-- `Sccg_pll`, `Root_clock` and `Root_clock_divider` of src/drivers/platform/imx8mq/ccm.cc: how the
-- rate of a clock is set and read, given that of its parent. Rates are 64 bit wide.
use genode_imx.Base.{
  ℕ, zero, suc, ◌+◌, ◌-◌, ◌*◌, ◌/◌, ◌%◌, ◌^◌, Bool, true, false, ◌==◌, ltb, if◌then◌else◌, Option,
  none, some,
}

-- The fields of the registers of a `Sccg_pll` that matter for its rate
pub record SccgPll : Type 0 where
  pub bypass1 : Bool
  pub bypass2 : Bool
  pub sse : Bool
  pub output_div_val : ℕ
  pub feedback_divf1 : ℕ
  pub feedback_divf2 : ℕ
  pub ref_divr1 : ℕ
  pub ref_divr2 : ℕ

-- The rates that the search tries.
unfoldable pub sccg_candidate : (parent_rate f q : ℕ) → ℕ
sccg_candidate parent_rate f q = ((parent_rate * f) % 2 ^ 64) / q

-- The inner loop of `find_sccg_pll_values`, from `f` on.
unfoldable pub find_factor : (rounds f q : ℕ) → (parent_rate rate : ℕ) → Option (ℕ × ℕ)
find_factor zero f q parent_rate rate = none
find_factor (suc n) f q parent_rate rate =
    let rest = find_factor n (f + 1) q parent_rate rate in
    if rate == sccg_candidate parent_rate f q then some (f, q) else rest

-- The outer loop, from `q` on.
unfoldable pub find_quotient : (rounds q : ℕ) → (parent_rate rate : ℕ) → Option (ℕ × ℕ)
find_quotient zero q parent_rate rate = none
find_quotient (suc n) q parent_rate rate =
    let rest = find_quotient n (q + 1) parent_rate rate in
    elim (find_factor 64 1 q parent_rate rate) [ none ↦ rest | some p ↦ some p ]

-- `find_sccg_pll_values`
unfoldable pub find_sccg_pll_values : (parent_rate rate : ℕ) → Option (ℕ × ℕ)
find_sccg_pll_values parent_rate rate = find_quotient 64 1 parent_rate rate

-- `Sccg_pll::rate`, which sets it; the fields for `f` and `q` have six bits.
unfoldable pub sccg_set_rate : (parent_rate rate : ℕ) → SccgPll → SccgPll
sccg_set_rate parent_rate rate c =
    if rate == parent_rate
    then record c { bypass2 = true }
    else elim (find_sccg_pll_values parent_rate rate) [
      | none ↦ c
      | some (f, q) ↦ record c {
        bypass2 = false;
        bypass1 = true;
        feedback_divf2 = (f - 1) % 2 ^ 6;
        ref_divr2 = (q - 1) % 2 ^ 6;
        output_div_val = 0;
      }
    ]

-- `Sccg_pll::rate`, which reads it; the products of the divisors are unsigned ints.
unfoldable pub sccg_rate : (parent_rate : ℕ) → SccgPll → ℕ
sccg_rate parent_rate c =
    let factor = if c.sse then 8 else 2 in
    let divf1 = c.feedback_divf1 + 1 in
    let divf2 = c.feedback_divf2 + 1 in
    let divr1 = c.ref_divr1 + 1 in
    let divr2 = c.ref_divr2 + 1 in
    let divq = c.output_div_val + 1 in
    if c.bypass2
    then parent_rate
    else if c.bypass1
    then ((parent_rate * divf2) % 2 ^ 64) / ((divr2 * divq) % 2 ^ 32)
    else ((parent_rate * factor * divf1 * divf2) % 2 ^ 64) / ((divr1 * divr2 * divq) % 2 ^ 32)

-- `Root_clock::Target_reg`
pub record TargetReg : Type 0 where
  pub post_div : ℕ
  pub pre_div : ℕ
  pub ref_sel : ℕ
  pub enable : Bool

-- The rate that two divisors give.
unfoldable pub divided : (parent_rate pre post : ℕ) → ℕ
divided parent_rate pre post = (parent_rate / (pre + 1)) / (post + 1)

-- How far a rate is from the one that is wanted.
unfoldable pub deviation_of : (diff rate : ℕ) → ℕ
deviation_of diff rate = if ltb rate diff then diff - rate else rate - diff

-- The variables of the search in `Root_clock::rate`.
pub record Best : Type 0 where
  pub pre_div : ℕ
  pub post_div : ℕ
  pub deviation : ℕ

-- The body of the loops
abbrev pub try_divisors : (parent_rate rate pre post : ℕ) → Best → Best
try_divisors parent_rate rate pre post b =
    let diff = deviation_of (divided parent_rate pre post) rate in
    if ltb diff b.deviation then record { pre_div = pre; post_div = post; deviation = diff } else b

-- The inner loop, from `post` on.
unfoldable pub try_posts : (rounds pre post : ℕ) → (parent_rate rate : ℕ) → Best → Best
try_posts zero pre post parent_rate rate b = b
try_posts (suc n) pre post parent_rate rate b =
    let next =
      try_posts n pre (post + 1) parent_rate rate (try_divisors parent_rate rate pre post b) in
    if b.deviation == 0 then b else next

-- The outer loop, from `pre` on.
unfoldable pub try_pres : (rounds pre : ℕ) → (parent_rate rate : ℕ) → Best → Best
try_pres zero pre parent_rate rate b = b
try_pres (suc n) pre parent_rate rate b =
    let next = try_pres n (pre + 1) parent_rate rate (try_posts 64 pre 0 parent_rate rate b) in
    if b.deviation == 0 then b else next

-- `Root_clock::rate`, which sets it, for the rate of the reference clock that is selected; the
-- fields have three and six bits.
unfoldable pub root_set_rate : (parent_rate rate : ℕ) → TargetReg → TargetReg
root_set_rate parent_rate rate t =
    let b =
      try_pres 8 0 parent_rate rate
        (record { pre_div = 0; post_div = 0; deviation = 2 ^ 64 - 1 }) in
    record t { pre_div = b.pre_div % 2 ^ 3; post_div = b.post_div % 2 ^ 6 }

-- `Root_clock::rate`, which reads it.
unfoldable pub root_rate : (parent_rate : ℕ) → TargetReg → ℕ
root_rate parent_rate t = divided parent_rate t.pre_div t.post_div

-- `Root_clock_divider::rate`, which sets it, for a rate that is not 0: the divisor is an
-- uint32_t, and the field that it is written to has six bits.
unfoldable pub divider_set_rate : (parent_rate rate : ℕ) → (post_div : ℕ) → ℕ
divider_set_rate parent_rate rate post_div =
    let div = ((parent_rate / rate + (2 ^ 64 - 1)) % 2 ^ 64) % 2 ^ 32 in
    if ltb 64 div then post_div else div % 2 ^ 6

-- `Root_clock_divider::rate`, which reads it.
unfoldable pub divider_rate : (parent_rate : ℕ) → (post_div : ℕ) → ℕ
divider_rate parent_rate post_div = parent_rate / (post_div + 1)
