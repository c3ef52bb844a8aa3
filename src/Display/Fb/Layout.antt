-- ===== src/Display/Fb/Layout.antt =====
-- Where the driver's private part of a framebuffer lies.
use genode_imx.Base.{
  ℕ, negsuc, ◌+◌, ◌%◌, ◌≡◌, ◌≢◌, ◌≤◌, some, ◌==◌, if◌then◌else◌, Ptr, null, refl, arith,
}
use genode_imx.Display.Fb.{FbInfo, bytes_per_long, padded_size, alloc_size, framebuffer_alloc}

-- For a private part of some bytes and an allocation that succeeds and is aligned for a long, the
-- private part is aligned too, lies behind the structure, and ends exactly where the allocation
-- ends; with no private part there is no pointer to one, and the allocation is the structure.
pub framebuffer_alloc_lem :
    (info_size size : ℕ) (device p : Ptr)
    → p ≢ null
    → p % bytes_per_long ≡ 0
    → (i : FbInfo) × (framebuffer_alloc info_size size device p ≡ some i)
      × (i.device ≡ device)
      × ((size ≢ 0)
          → (i.par % bytes_per_long ≡ 0)
            × (p + info_size ≤ i.par)
            × (i.par + size ≡ p + alloc_size info_size size))
      × ((size ≡ 0) → (i.par ≡ null) × (alloc_size info_size size ≡ info_size))
unfolding framebuffer_alloc alloc_size
framebuffer_alloc_lem info_size size device p live aligned = (
  record {
    par = if size == 0 then null else p + padded_size info_size size;
    device = device;
    fbcon_rotate_hint = negsuc 0;
    screen_base = null;
    screen_size = 0;
    xres = 0;
    yres = 0;
  },
  ground arith,
  refl,
  λ some_part. (ground arith, ground arith, ground arith),
  λ no_part. (ground arith, ground arith),
)
