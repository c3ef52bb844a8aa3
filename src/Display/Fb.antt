-- ===== src/Display/Fb.antt =====
-- src/drivers/framebuffer/imx8mq/fb.c and reset_core.c.
pub mod Layout
use genode_imx.Base.{
  ℕ, ℤ, pos, negsuc, ◌+◌, ◌-◌, ◌%◌, ◌==◌, if◌then◌else◌, Option, none, some, Ptr, null, Name, List,
  [], ◌∷◌, ◌++◌,
}

-- `struct fb_info`
pub record FbInfo : Type 0 where
  pub par : Ptr
  pub device : Ptr
  pub fbcon_rotate_hint : ℤ
  pub screen_base : Ptr
  pub screen_size : ℕ
  pub xres : ℕ
  pub yres : ℕ

-- `BYTES_PER_LONG`
abbrev pub bytes_per_long : ℕ
bytes_per_long = 8

-- `PADDING`, for the size of the structure
abbrev pub padding : ℕ → ℕ
padding info_size = bytes_per_long - info_size % bytes_per_long

-- `fb_info_size` once it is padded
abbrev pub padded_size : (info_size size : ℕ) → ℕ
padded_size info_size size = if size == 0 then info_size else info_size + padding info_size

-- The number of bytes that `framebuffer_alloc` allocates.
pub alloc_size : (info_size size : ℕ) → ℕ
alloc_size info_size size = padded_size info_size size + size

-- `framebuffer_alloc`, given the size of `struct fb_info` and where the allocation lies.
pub framebuffer_alloc : (info_size size : ℕ) → (device p : Ptr) → Option FbInfo
framebuffer_alloc info_size size device p =
    if p == null
    then none
    else some (record {
      par = if size == 0 then null else p + padded_size info_size size;
      device = device;
      fbcon_rotate_hint = negsuc 0;
      screen_base = null;
      screen_size = 0;
      xres = 0;
      yres = 0;
    })

pub data Event : Type 0 where
  framebuffer_ready : (base size xres yres : ℕ) → Event
  reset_deassert : Name → Event

-- `register_framebuffer`
pub register_framebuffer : FbInfo → List Event → ℤ × List Event
register_framebuffer i es =
    (pos 0, es ++ framebuffer_ready i.screen_base i.screen_size i.xres i.yres ∷ [])

-- `__devm_reset_control_get`, which hands out the pin's name for a handle
pub devm_reset_control_get : Ptr → Name → Name
devm_reset_control_get device id = id

-- `reset_control_deassert`
pub reset_control_deassert : Name → List Event → ℤ × List Event
reset_control_deassert handle es = (pos 0, es ++ reset_deassert handle ∷ [])
