-- ===== src/Emul/Soc.antt =====
-- `soc_device_match` and `dma_fence_context_alloc` of src/drivers/framebuffer/imx8mq/dummies.c.
pub mod Matching
use genode_imx.Base.{
  ℕ, zero, suc, ◌+◌, ◌-◌, ◌%◌, ◌^◌, Bool, true, false, not, ◌&&◌, if◌then◌else◌, Option, none, some,
  Name, List, [], ◌∷◌,
}

-- `struct soc_device_attribute`, of which each string may be absent.
pub record SocAttribute : Type 0 where
  pub machine : Option Name
  pub family : Option Name
  pub revision : Option Name
  pub soc_id : Option Name

abbrev pub is_some : Option Name → Bool
is_some none = false
is_some (some n) = true

-- The condition under which the loop goes on.
abbrev pub is_complete : SocAttribute → Bool
is_complete a = is_some a.machine && (is_some a.family && (is_some a.revision && is_some a.soc_id))

-- `soc_id` is the string for which the parameter, `strcmp(..., "i.MX8MQ") == 0`, holds.
abbrev pub names_soc : (Name → Bool) → SocAttribute → Bool
names_soc is_imx8mq a = elim a.soc_id [ none ↦ false | some n ↦ is_imx8mq n ]

-- `soc_device_match` over an array whose end is the entry without strings: the entry returned. For
-- NULL in place of an array the function returns NULL, as for the empty one.
pub soc_device_match : (Name → Bool) → List SocAttribute → Option SocAttribute
soc_device_match is_imx8mq [] = none
soc_device_match is_imx8mq (a ∷ bs) =
    let rest = soc_device_match is_imx8mq bs in
    if not (is_complete a) then none else if names_soc is_imx8mq a then some a else rest

-- `dma_fence_context_alloc`: the first context of the range, and the counter.
pub dma_fence_context_alloc : (num counter : ℕ) → ℕ × ℕ
dma_fence_context_alloc num counter =
    let next = (counter + num) % 2 ^ 64 in ((next + 2 ^ 64 - num) % 2 ^ 64, next)
