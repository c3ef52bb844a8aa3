-- ===== src/Gpu/Ioctl.antt =====
-- Ioctls of src/drivers/gpu/imx8mq/lx_emul.c: the pointers in an argument, which travel as offsets
-- from its start, and the dispatch of `lx_drm_ioctl`.
pub mod Pointers
pub mod Dispatch
mod Tests
use Prim.Native.Nat.{bit_and}
use genode_imx.Base.{
  ℕ, ℤ, pos, negsuc, ◌+◌, ◌*◌, ◌-◌, ◌%◌, ◌^◌, Bool, not, ◌==◌, ltb, leb, ◌&&◌, if◌then◌else◌, Ptr,
  null,
}
use genode_imx.Gpu.Abi.{Abi, Core, DrmApi}

abbrev pub Memory : Type 0
Memory = ℕ → ℕ

abbrev pub write : ℕ → ℕ → Memory → Memory
write a v m p = if a == p then v else m p

-- `*a += n` and `*a -= n` on an unsigned long.
abbrev pub add_at : ℕ → ℕ → Memory → Memory
add_at a n m = write a ((m a + n) % 2 ^ 64) m

abbrev pub sub_at : ℕ → ℕ → Memory → Memory
sub_at a n m = write a ((m a + 2 ^ 64 - n) % 2 ^ 64) m

-- `lx_drm_gem_submit_bo_count`
pub lx_drm_gem_submit_bo_count : Abi → ℕ → Memory → ℕ
lx_drm_gem_submit_bo_count abi p m = m (p + abi.submit_nr_bos)

-- `lx_drm_gem_submit_bo_handle`: the address of the handle
unfoldable pub lx_drm_gem_submit_bo_handle : Abi → ℕ → ℕ → Memory → ℕ
lx_drm_gem_submit_bo_handle abi p index m =
    ((m (p + abi.submit_bos) + p) % 2 ^ 64 + index * abi.bo_size) % 2 ^ 64 + abi.bo_handle

-- `lx_drm_gem_submit_in`
pub lx_drm_gem_submit_in : Abi → ℕ → Memory → Memory
lx_drm_gem_submit_in abi p m = add_at (p + abi.submit_stream) p (
    add_at (p + abi.submit_pmrs) p
      (add_at (p + abi.submit_relocs) p (add_at (p + abi.submit_bos) p m)))

-- `lx_drm_version_in`
pub lx_drm_version_in : Abi → ℕ → Memory → Memory
lx_drm_version_in abi p m =
    add_at (p + abi.version_desc) p
      (add_at (p + abi.version_date) p (add_at (p + abi.version_name) p m))

-- `lx_drm_version_out`
pub lx_drm_version_out : Abi → ℕ → Memory → Memory
lx_drm_version_out abi p m =
    sub_at (p + abi.version_desc) p
      (sub_at (p + abi.version_date) p (sub_at (p + abi.version_name) p m))

-- `nr >= DRM_COMMAND_BASE && nr < DRM_COMMAND_END`
abbrev pub is_driver_ioctl : Abi → ℕ → Bool
is_driver_ioctl abi nr = leb abi.command_base nr && ltb nr abi.command_end

-- `lx_drm_in`
pub lx_drm_in : Abi → (cmd arg : ℕ) → Memory → Memory
lx_drm_in abi cmd arg m =
    let nr = abi.ioctl_nr cmd in
    if is_driver_ioctl abi nr
    then (if nr - abi.command_base == abi.etnaviv_gem_submit
        then lx_drm_gem_submit_in abi arg m
        else m)
    else (if nr == abi.nr_version then lx_drm_version_in abi arg m else m)

-- `lx_drm_out`
pub lx_drm_out : Abi → (cmd arg : ℕ) → Memory → Memory
lx_drm_out abi cmd arg m =
    let nr = abi.ioctl_nr cmd in
    if is_driver_ioctl abi nr
    then m
    else (if nr == abi.nr_version then lx_drm_version_out abi arg m else m)

module _ {W : Type 0} where
  abbrev pub on_mem : (Memory → Memory) → Core W → Core W
  on_mem f c = record c { mem = f c.mem }

  -- `lx_drm_ioctl`
  unfoldable pub lx_drm_ioctl : Abi → DrmApi W → (p cmd arg : ℕ) → Core W → ℤ × Core W
  lx_drm_ioctl abi api p cmd arg c =
      if p == null
      then (negsuc 0, c)
      else let c' =
          if not (bit_and cmd abi.ioc_in == 0) then on_mem (lx_drm_in abi cmd arg) c else c in
        let (res, d) = api.drm_ioctl (c'.file_of p) cmd arg c' in
        (res, if not (bit_and cmd abi.ioc_out == 0) then on_mem (lx_drm_out abi cmd arg) d else d)

-- `lx_drm_check_gem_new`
pub lx_drm_check_gem_new : Abi → ℕ → ℕ
lx_drm_check_gem_new abi cmd =
    let nr = abi.ioctl_nr cmd in
    if not (is_driver_ioctl abi nr)
    then 0
    else if nr - abi.command_base == abi.etnaviv_gem_new
    then 1
    else 0

-- `lx_drm_get_gem_new_handle`
pub lx_drm_get_gem_new_handle : Abi → ℕ → Memory → ℕ
lx_drm_get_gem_new_handle abi arg m = m (arg + abi.new_handle)

-- `lx_drm_check_gem_close`
pub lx_drm_check_gem_close : Abi → ℕ → ℕ
lx_drm_check_gem_close abi cmd =
    let nr = abi.ioctl_nr cmd in
    if is_driver_ioctl abi nr then 0 else if nr == abi.nr_gem_close then 1 else 0

-- `lx_drm_get_gem_close_handle`
pub lx_drm_get_gem_close_handle : Abi → ℕ → Memory → ℕ
lx_drm_get_gem_close_handle abi arg m = m (arg + abi.close_handle)
