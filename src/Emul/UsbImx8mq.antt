-- ===== src/Emul/UsbImx8mq.antt =====
-- src/drivers/usb_host/imx8mq/lx_emul.c, whose DMA pools have the text of those of
-- src/drivers/usb_host/imx/lx_emul.c.
use genode_imx.Base.{ℕ, Option, Ptr}
use genode_imx.Emul.DmaPool.{DmaPool, MemApi}
use genode_imx.Emul.DmaPool

-- `dma_pool_create`
abbrev pub dma_pool_create : (pool : Ptr) → (size align boundary : ℕ) → Option DmaPool
dma_pool_create = DmaPool.dma_pool_create

module _ {W : Type 0} (api : MemApi W) where
  -- `dma_pool_alloc`
  abbrev pub dma_pool_alloc : DmaPool → W → Ptr × ℕ × W
  dma_pool_alloc = DmaPool.dma_pool_alloc api

  -- `dma_pool_free`
  abbrev pub dma_pool_free : DmaPool → Ptr → ℕ → W → W
  dma_pool_free = DmaPool.dma_pool_free api

-- `alloc_pages_current`, over `__alloc_pages` of flags, an order and a node
abbrev pub alloc_pages_current : (ℕ → ℕ → ℕ → Ptr) → (gfp order : ℕ) → Ptr
alloc_pages_current alloc_pages gfp order = alloc_pages gfp order 0
