-- ===== src/Gpu/Mapping.antt =====
-- `genode_lookup_mapping_from_offset` of src/drivers/gpu/imx8mq/lx_emul.c: from a buffer's offset
-- to the memory behind it.
pub mod Chain
use genode_imx.Base.{ℕ, ◌/◌, Bool, not, ◌==◌, if◌then◌else◌, Ptr, null}

-- The links between the kernel's objects, NULL where there is none, and the lookup of a node by
-- page and number of pages, while the manager is locked.
pub record Objects : Type 0 where
  pub file : Ptr → Ptr
  pub file_private : Ptr → Ptr
  pub minor_dev : Ptr → Ptr
  pub vma_manager : Ptr → Ptr
  pub lookup_locked : Ptr → ℕ → ℕ → Ptr
  pub gem_object : Ptr → Ptr
  pub filp : Ptr → Ptr
  pub f_mapping : Ptr → Ptr
  pub mapping_private : Ptr → Ptr
  pub buffer_addr : Ptr → Ptr

abbrev pub page_size : ℕ
page_size = 4096

-- `if (!p) return NULL;` and on with `p`.
abbrev pub chain : Ptr → (Ptr → Ptr) → Ptr
chain p k = if p == null then null else k p

pub genode_lookup_mapping_from_offset : Objects → (p offset size : ℕ) → Ptr
genode_lookup_mapping_from_offset o p offset size = chain p λ prv. chain (o.file prv) λ file.
    chain (o.file_private file) λ drm_file. chain (o.minor_dev drm_file) λ dev.
      chain (o.lookup_locked (o.vma_manager dev) (offset / page_size) (size / page_size)) λ node.
        chain (o.gem_object node) λ obj.
          chain (o.filp obj)
            λ f. chain (o.f_mapping f) λ mapping. chain (o.mapping_private mapping) o.buffer_addr
