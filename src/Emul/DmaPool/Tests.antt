-- ===== src/Emul/DmaPool/Tests.antt =====
-- A pool of blocks of 64 bytes over an allocator that hands out page after page.
use genode_imx.Base.{ℕ, ◌+◌, ◌*◌, ◌≡◌, some, refl}
use genode_imx.Emul.DmaPool.{DmaPool, MemApi, dma_pool_create}

abbrev api : MemApi ℕ
api = record {
  alloc_aligned_uncached = λ n a w. (w * a, w + 1);
  dma_addr = λ p w. p;
  free = λ p w. w;
}

abbrev pool : DmaPool
pool = record { size = 64 }

pool-made : dma_pool_create 5 64 16 8192 ≡ some pool
unfolding dma_pool_create
pool-made = refl
