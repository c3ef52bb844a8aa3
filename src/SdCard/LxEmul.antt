-- ===== src/SdCard/LxEmul.antt =====
-- src/drivers/sd_card/lx_emul.c where it has the text of src/drivers/nic/fec/lx_emul.c.
use genode_imx.Base.{ℕ, ℤ, Ptr}
use genode_imx.Emul.Chrdev
use genode_imx.Emul.Slab

-- `alloc_chrdev_region`
abbrev pub alloc_chrdev_region : ℕ → ℤ × ℕ × ℕ
alloc_chrdev_region = Chrdev.alloc_chrdev_region

-- `kmem_cache_create_usercopy`
abbrev pub kmem_cache_create_usercopy :
    (ℕ → ℕ → ℕ → Ptr → Ptr) → (size align flags useroffset usersize : ℕ) → (ctor : Ptr) → Ptr
kmem_cache_create_usercopy = Slab.kmem_cache_create_usercopy

-- `kmem_cache_alloc_lru`
abbrev pub kmem_cache_alloc_lru : (ℕ → Ptr) → (size lru : ℕ) → Ptr
kmem_cache_alloc_lru = Slab.kmem_cache_alloc_lru
