-- ===== src/Legacy/Emul.antt =====
-- src/drivers/nic/fec_legacy/lx_emul.c where it has the text of src/drivers/nic/fec/lx_emul.c.
use genode_imx.Base.{ℕ, ℤ, Ptr, List}
use genode_imx.Base.Run.{Run}
use genode_imx.Emul.Pages.{PageApi, Event}
use genode_imx.Emul.Pages
use genode_imx.Emul.Chrdev
use genode_imx.Emul.Slab
use genode_imx.Emul.Forward

-- `alloc_chrdev_region`
abbrev pub alloc_chrdev_region : ℕ → ℤ × ℕ × ℕ
alloc_chrdev_region = Chrdev.alloc_chrdev_region

-- `dmam_alloc_attrs`
abbrev pub dmam_alloc_attrs : Ptr → Ptr
dmam_alloc_attrs = Forward.dmam_alloc_attrs

-- `get_zeroed_page`
abbrev pub get_zeroed_page : PageApi → List Event → Run (List Event) Ptr
get_zeroed_page = Pages.get_zeroed_page

-- `kmem_cache_create_usercopy`
abbrev pub kmem_cache_create_usercopy :
    (ℕ → ℕ → ℕ → Ptr → Ptr) → (size align flags useroffset usersize : ℕ) → (ctor : Ptr) → Ptr
kmem_cache_create_usercopy = Slab.kmem_cache_create_usercopy

-- `page_frag_free`, over `lx_emul_mem_free` on a memory
abbrev pub page_frag_free : {M : Type 0} → (Ptr → M → M) → Ptr → M → M
page_frag_free free addr m = free addr m
