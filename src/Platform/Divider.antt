-- ===== src/Platform/Divider.antt =====
-- The divider behind a root clock.
use genode_imx.Base.{ℕ, ◌+◌, ◌-◌, ◌/◌, ◌%◌, ◌^◌, ◌≡◌, ◌≤◌, ◌<◌, ltb, if◌then◌else◌, ap, arith}
use genode_imx.Platform.Ccm.{divider_set_rate, divider_rate}

-- The new value of the field, by how many times the parent is as fast.
abbrev field : (times post_div : ℕ) → ℕ
field times post_div =
    let div = ((times + (2 ^ 64 - 1)) % 2 ^ 64) % 2 ^ 32 in
    if ltb 64 div then post_div else div % 2 ^ 6

field-inside : (n post_div : ℕ) → 1 ≤ n → n ≤ 64 → field n post_div + 1 ≡ n
field-inside n post_div low high = ground arith

field-over : (n post_div : ℕ) → n ≡ 65 → field n post_div ≡ 0
field-over n post_div e = ground arith

field-zero : (n post_div : ℕ) → n ≡ 0 → field n post_div ≡ post_div
field-zero n post_div e = ground arith

field-beyond : (n post_div : ℕ) → 65 < n → n < 2 ^ 32 → field n post_div ≡ post_div
field-beyond n post_div low high = ground arith

-- Setting the rate of a divider, for a parent less than 2 ^ 32 times as fast: if the parent is 1 to 64 times as
-- fast as wanted, rounded down, this factor divides it afterwards. If it is 65 times as fast, the
-- field is too small for the divisor, and the parent is not divided at all. If it is slower, or
-- faster still, the field stays as it is.
pub divider_rate-divider_set_rate :
    (parent_rate rate post_div : ℕ)
    → parent_rate / rate < 2 ^ 32
    → let times = parent_rate / rate in
      let set = divider_rate parent_rate (divider_set_rate parent_rate rate post_div) in
      (1 ≤ times → times ≤ 64 → set ≡ parent_rate / times)
      × (times ≡ 65 → set ≡ parent_rate / 1)
      × (times ≡ 0 → set ≡ divider_rate parent_rate post_div)
      × (65 < times → set ≡ divider_rate parent_rate post_div)
unfolding divider_rate divider_set_rate
divider_rate-divider_set_rate parent_rate rate post_div small =
    let n = parent_rate / rate in
    (
      λ low high. ap (λ d. parent_rate / d) (field-inside n post_div low high),
      λ e. ap (λ d. parent_rate / (d + 1)) (field-over n post_div e),
      λ e. ap (λ d. parent_rate / (d + 1)) (field-zero n post_div e),
      λ low. ap (λ d. parent_rate / (d + 1)) (field-beyond n post_div low small),
    )
