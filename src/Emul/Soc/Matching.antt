-- ===== src/Emul/Soc/Matching.antt =====
-- Which entry is matched, and which contexts are handed out.
use genode_imx.Base.{
  ℕ, ◌+◌, ◌≡◌, ◌<◌, ◌^◌, true, false, none, some, Bool, Name, List, [], ◌∷◌, ◌++◌, arith,
}
use genode_imx.Emul.Soc.{
  SocAttribute, is_complete, names_soc, soc_device_match, dma_fence_context_alloc,
}

-- Entries that have all four strings and name another system.
pub data Others (is_imx8mq : Name → Bool) : List SocAttribute → Type 0 where
  nobody : Others is_imx8mq []
  another :
      {a : SocAttribute} {bs : List SocAttribute}
      → is_complete a ≡ true
      → names_soc is_imx8mq a ≡ false
      → Others is_imx8mq bs
      → Others is_imx8mq (a ∷ bs)

-- After entries for other systems, an entry is returned if it names the system and has all four
-- strings; an entry that lacks a string ends the search without a match, whatever follows it.
pub soc_device_match_lem :
    (is_imx8mq : Name → Bool) (before after : List SocAttribute) (a : SocAttribute)
    → Others is_imx8mq before
    → (is_complete a ≡ true
        → names_soc is_imx8mq a ≡ true
        → soc_device_match is_imx8mq (before ++ a ∷ after) ≡ some a)
      × (is_complete a ≡ false → soc_device_match is_imx8mq (before ++ a ∷ after) ≡ none)
unfolding soc_device_match
soc_device_match_lem is_imx8mq before after a nobody = (λ c n. rw (c, n), λ c. rw c)
soc_device_match_lem is_imx8mq before after a (another c n rest) =
    let (found, missed) = soc_device_match_lem is_imx8mq _ after a rest in
    (λ c' n'. rw (c, n) (found c' n'), λ c'. rw (c, n) (missed c'))

-- Before the counter reaches 2^64, a range starts at the counter, and the next one starts right
-- behind it.
pub dma_fence_context_alloc_lem :
    (num num' counter : ℕ)
    → counter + num + num' < 2 ^ 64
    → let (first, next) = dma_fence_context_alloc num counter in
      (first ≡ counter) × ((dma_fence_context_alloc num' next).0 ≡ first + num)
unfolding dma_fence_context_alloc
dma_fence_context_alloc_lem num num' counter h = (omega arith, omega arith)
