-- ===== src/Gpu/Abi.antt =====
-- What the DRM headers of Linux fix: ioctl numbers, the parts of a command, the places of an
-- argument's fields, and the DRM core behind `drm_ioctl`.
use genode_imx.Base.{ℕ, ℤ, Ptr}

-- The numbers, the size of each command's argument, and the offset of each field that the driver reads or writes in its structure.
pub record Abi : Type 0 where
  pub ioctl_nr : ℕ → ℕ
  pub ioc_in : ℕ
  pub ioc_out : ℕ
  pub command_base : ℕ
  pub command_end : ℕ
  pub nr_version : ℕ
  pub nr_gem_close : ℕ
  pub etnaviv_gem_new : ℕ
  pub etnaviv_gem_submit : ℕ
  pub cmd_get_param : ℕ
  pub cmd_gem_submit : ℕ
  pub cmd_wait_fence : ℕ
  pub cmd_gem_new : ℕ
  pub cmd_gem_info : ℕ
  pub cmd_gem_cpu_prep : ℕ
  pub cmd_gem_cpu_fini : ℕ
  pub cmd_gem_close : ℕ
  pub bo_wc : ℕ
  pub size_of : ℕ → ℕ
  pub version_name : ℕ
  pub version_date : ℕ
  pub version_desc : ℕ
  pub submit_nr_bos : ℕ
  pub submit_bos : ℕ
  pub submit_relocs : ℕ
  pub submit_pmrs : ℕ
  pub submit_stream : ℕ
  pub submit_fence : ℕ
  pub bo_size : ℕ
  pub bo_handle : ℕ
  pub param_pipe : ℕ
  pub param_param : ℕ
  pub param_value : ℕ
  pub fence_pipe : ℕ
  pub fence_fence : ℕ
  pub fence_flags : ℕ
  pub new_size : ℕ
  pub new_flags : ℕ
  pub new_handle : ℕ
  pub info_handle : ℕ
  pub info_offset : ℕ
  pub prep_handle : ℕ
  pub prep_op : ℕ
  pub prep_sec : ℕ
  pub prep_nsec : ℕ
  pub fini_handle : ℕ
  pub close_handle : ℕ

-- The fields in memory by address, the files of the sessions, and the rest of the DRM core.
pub record Core (W : Type 0) : Type 0 where
  pub mem : ℕ → ℕ
  pub file_of : Ptr → Ptr
  pub world : W

-- `drm_ioctl` and `ktime_get_ts64`
pub record DrmApi (W : Type 0) : Type 0 where
  pub drm_ioctl : (file cmd arg : ℕ) → Core W → ℤ × Core W
  pub ktime : W → ℕ × ℕ
