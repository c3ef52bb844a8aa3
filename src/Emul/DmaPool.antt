-- ===== src/Emul/DmaPool.antt =====
-- The DMA pools of src/drivers/usb_host/imx/lx_emul.c, which take every block from the page-aligned
-- allocator.
mod Tests
pub mod Blocks
use genode_imx.Base.{
  ℕ, ◌+◌, ◌*◌, ◌≡◌, ◌≢◌, ◌<◌, ◌≤◌, ◌⊎◌, ◌==◌, if◌then◌else◌, Option, none, some, Ptr, null, refl,
  ap, arith,
}
use genode_imx.Base.Run.{Run, ok, fault}

abbrev pub page_size : ℕ
page_size = 4096

-- `struct dma_pool`, which keeps nothing but the size
pub record DmaPool : Type 0 where
  pub size : ℕ

-- `lx_emul_mem_alloc_aligned_uncached`, `lx_emul_mem_dma_addr` and `lx_emul_mem_free` over a memory
-- of their own.
pub record MemApi (W : Type 0) : Type 0 where
  pub alloc_aligned_uncached : (size align : ℕ) → W → Ptr × W
  pub dma_addr : Ptr → W → ℕ
  pub free : Ptr → W → W

-- `dma_pool_create`, given what the allocation of the pool returns, which is not checked: `none`
-- is the NULL dereference that follows
pub dma_pool_create : (pool : Ptr) → (size align boundary : ℕ) → Option DmaPool
dma_pool_create pool size align boundary =
    if pool == null then none else some (record { size = size })

module _ {W : Type 0} (api : MemApi W) where
  -- `dma_pool_alloc`: the block, and the address for the device
  pub dma_pool_alloc : DmaPool → W → Ptr × ℕ × W
  dma_pool_alloc pool w =
      let (block, w') = api.alloc_aligned_uncached pool.size page_size w in
      (block, api.dma_addr block w', w')

  -- `dma_pool_free`
  pub dma_pool_free : DmaPool → Ptr → ℕ → W → W
  dma_pool_free pool vaddr dma w = api.free vaddr w
