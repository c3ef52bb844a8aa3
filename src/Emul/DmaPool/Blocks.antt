-- ===== src/Emul/DmaPool/Blocks.antt =====
-- Where the blocks of a pool lie.
use genode_imx.Base.{ℕ, ◌+◌, ◌*◌, ◌≡◌, ◌<◌, ◌≤◌, some, ap, arith}
use genode_imx.Emul.DmaPool.{page_size, DmaPool, MemApi, dma_pool_create, dma_pool_alloc}

module _ {W : Type 0} (api : MemApi W) where
  -- If the allocator aligns its blocks as it is asked to, a block of a pool meets the alignment
  -- and the boundary that the pool was created with, although the pool keeps neither: every
  -- divisor of the page size divides the block's address, and no multiple of a boundary of whole
  -- pages lies inside the block, if the block fits a page.
  pub dma_pool_alloc-aligned :
      (at size align boundary parts pages : ℕ) (pool : DmaPool) (w : W)
      → ((n a : ℕ) (v : W) → (q : ℕ) × ((api.alloc_aligned_uncached n a v).0 ≡ q * a))
      → dma_pool_create at size align boundary ≡ some pool
      → parts * align ≡ page_size
      → boundary ≡ pages * page_size
      → size ≤ page_size
      → let block = (dma_pool_alloc api pool w).0 in
        ((q : ℕ) × (block ≡ q * align))
        × ((k : ℕ) → block < k * boundary → block + size ≤ k * boundary)
  unfolding dma_pool_create dma_pool_alloc
  dma_pool_alloc-aligned at size align boundary parts pages pool w aligns made divides whole fits =
      let (q, at_page) = aligns pool.size page_size w in
      (
        (q * parts, omega (arith, at_page, ap (λ (t : ℕ). q * t) divides)),
        λ k before. omega (arith, at_page, ap (λ (t : ℕ). k * t) whole),
      )
