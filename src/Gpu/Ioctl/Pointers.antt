-- ===== src/Gpu/Ioctl/Pointers.antt =====
-- Offsets to pointers and back.
use genode_imx.Base.{ℕ, ◌+◌, ◌*◌, ◌%◌, ◌^◌, ◌≡◌, ◌≢◌, ◌<◌, refl, fun_ext, arith}
use genode_imx.Gpu.Abi.{Abi}
use genode_imx.Gpu.Ioctl.{
  Memory, lx_drm_gem_submit_bo_handle, lx_drm_gem_submit_in, lx_drm_version_in, lx_drm_version_out,
}

-- Every field holds a 64-bit value, and so does an address.
abbrev pub IsWords : Memory → Type 0
IsWords m = (a : ℕ) → m a < 2 ^ 64

-- The pointers of a version argument are three fields.
pub record IsVersion (abi : Abi) : Type 0 where
  pub name_date : abi.version_name ≢ abi.version_date
  pub name_desc : abi.version_name ≢ abi.version_desc
  pub date_desc : abi.version_date ≢ abi.version_desc

-- `lx_drm_version_out` undoes `lx_drm_version_in`: wherever the argument lies, all of the memory
-- is as it was, also where the sums wrap around.
pub lx_drm_version_out-in :
    (abi : Abi) (p : ℕ) (m : Memory)
    → IsVersion abi
    → IsWords m
    → p < 2 ^ 64
    → lx_drm_version_out abi p (lx_drm_version_in abi p m) ≡ m
unfolding lx_drm_version_out lx_drm_version_in
lx_drm_version_out-in abi p m v words small = fun_ext λ a. ground (
  arith,
  words (p + abi.version_name),
  words (p + abi.version_date),
  words (p + abi.version_desc),
  v,
)

-- The fields of a submission are different ones.
pub record IsSubmit (abi : Abi) : Type 0 where
  pub bos_relocs : abi.submit_bos ≢ abi.submit_relocs
  pub bos_pmrs : abi.submit_bos ≢ abi.submit_pmrs
  pub bos_stream : abi.submit_bos ≢ abi.submit_stream
  pub relocs_pmrs : abi.submit_relocs ≢ abi.submit_pmrs
  pub relocs_stream : abi.submit_relocs ≢ abi.submit_stream
  pub pmrs_stream : abi.submit_pmrs ≢ abi.submit_stream

-- `lx_drm_gem_submit_in` adds the argument's address to its four offsets, each once, and writes
-- nothing else.
pub lx_drm_gem_submit_in_lem :
    (abi : Abi) (p : ℕ) (m : Memory)
    → IsSubmit abi
    → let n = lx_drm_gem_submit_in abi p m in
      (n (p + abi.submit_bos) ≡ (m (p + abi.submit_bos) + p) % 2 ^ 64)
      × (n (p + abi.submit_relocs) ≡ (m (p + abi.submit_relocs) + p) % 2 ^ 64)
      × (n (p + abi.submit_pmrs) ≡ (m (p + abi.submit_pmrs) + p) % 2 ^ 64)
      × (n (p + abi.submit_stream) ≡ (m (p + abi.submit_stream) + p) % 2 ^ 64)
      × ((a : ℕ)
          → a ≢ p + abi.submit_bos
          → a ≢ p + abi.submit_relocs
          → a ≢ p + abi.submit_pmrs
          → a ≢ p + abi.submit_stream
          → n a ≡ m a)
unfolding lx_drm_gem_submit_in
lx_drm_gem_submit_in_lem abi p m d =
    (ground arith, ground arith, ground arith, ground arith, λ a h₁ h₂ h₃ h₄. ground arith)

-- The handles that are read through `lx_drm_gem_submit_bo_handle` before a submission are those
-- that the kernel finds through the converted pointer: the address is that of the entry behind
-- the pointer.
pub lx_drm_gem_submit_bo_handle-in :
    (abi : Abi) (p index : ℕ) (m : Memory)
    → IsSubmit abi
    → lx_drm_gem_submit_bo_handle abi p index m
      ≡ (lx_drm_gem_submit_in abi p m (p + abi.submit_bos) + index * abi.bo_size) % 2 ^ 64
        + abi.bo_handle
unfolding lx_drm_gem_submit_bo_handle
lx_drm_gem_submit_bo_handle-in abi p index m d = rw ((lx_drm_gem_submit_in_lem abi p m d).0) refl

-- The same, where the fields have been left alone while the rest of the memory changed.
pub lx_drm_version_out-kept :
    (abi : Abi) (p : ℕ) (m b : Memory)
    → IsVersion abi
    → IsWords m
    → p < 2 ^ 64
    → let n = lx_drm_version_in abi p m in
      (b (p + abi.version_name) ≡ n (p + abi.version_name))
      → (b (p + abi.version_date) ≡ n (p + abi.version_date))
      → (b (p + abi.version_desc) ≡ n (p + abi.version_desc))
      → let o = lx_drm_version_out abi p b in
        (o (p + abi.version_name) ≡ m (p + abi.version_name))
        × (o (p + abi.version_date) ≡ m (p + abi.version_date))
        × (o (p + abi.version_desc) ≡ m (p + abi.version_desc))
unfolding lx_drm_version_out lx_drm_version_in
lx_drm_version_out-kept abi p m b v words small h₁ h₂ h₃ = (
  ground (arith, words (p + abi.version_name)),
  ground (arith, words (p + abi.version_date)),
  ground (arith, words (p + abi.version_desc)),
)
