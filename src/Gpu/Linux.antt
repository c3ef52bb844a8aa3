-- ===== src/Gpu/Linux.antt =====
-- Numbers of the kind that Linux' headers fix for a 64-bit ARM, and a DRM core that does nothing,
-- for the tests.
use genode_imx.Base.{ℕ, pos, ◌%◌}
use genode_imx.Gpu.Abi.{Abi, DrmApi}

abbrev pub linux : Abi
linux = record {
  ioctl_nr = λ cmd. cmd % 256;
  ioc_in = 0x40000000;
  ioc_out = 0x80000000;
  command_base = 0x40;
  command_end = 0xa0;
  nr_version = 0;
  nr_gem_close = 9;
  etnaviv_gem_new = 2;
  etnaviv_gem_submit = 6;
  cmd_get_param = 0xc0106440;
  cmd_gem_submit = 0xc0486446;
  cmd_wait_fence = 0x40206447;
  cmd_gem_new = 0xc0106442;
  cmd_gem_info = 0xc0106443;
  cmd_gem_cpu_prep = 0x40186444;
  cmd_gem_cpu_fini = 0x40086445;
  cmd_gem_close = 0x40086409;
  bo_wc = 0x20000;
  size_of = λ cmd. 64;
  version_name = 16;
  version_date = 32;
  version_desc = 48;
  submit_nr_bos = 12;
  submit_bos = 24;
  submit_relocs = 32;
  submit_pmrs = 56;
  submit_stream = 40;
  submit_fence = 0;
  bo_size = 24;
  bo_handle = 4;
  param_pipe = 0;
  param_param = 4;
  param_value = 8;
  fence_pipe = 0;
  fence_fence = 4;
  fence_flags = 8;
  new_size = 0;
  new_flags = 8;
  new_handle = 12;
  info_handle = 0;
  info_offset = 8;
  prep_handle = 0;
  prep_op = 4;
  prep_sec = 8;
  prep_nsec = 16;
  fini_handle = 0;
  close_handle = 0;
}

abbrev pub keeps : DrmApi ℕ
keeps = record { drm_ioctl = λ file cmd arg c. (pos 0, c); ktime = λ w. (w, 0) }
