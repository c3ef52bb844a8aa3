-- ===== src/Gpu/Calls.antt =====
-- The requests of the GPU session in src/drivers/gpu/imx8mq/lx_emul.c: each fills an argument on
-- the stack, makes one ioctl, and reads its answer.
pub mod Answers
use genode_imx.Base.{
  ℕ, ℤ, negsuc, ◌+◌, ◌%◌, ◌^◌, Bool, ◌&&◌, ltb, leb, Option, none, some, if◌then◌else◌, is_nonzero,
}
use genode_imx.Gpu.Abi.{Abi, Core, DrmApi}
use genode_imx.Gpu.Ioctl.{Memory, write, on_mem, lx_drm_ioctl}

module _ {W : Type 0} (abi : Abi) (api : DrmApi W) where
  -- The argument of a command on the stack, before its fields are set: what an initialiser does
  -- not name is 0.
  abbrev pub blank : (cmd req : ℕ) → Memory → Memory
  blank cmd req m a = if leb req a && ltb a (req + abi.size_of cmd) then 0 else m a

  -- The value that a request writes through its pointer, if it writes one.
  abbrev pub Answer : Type 0
  Answer = ℤ × Option ℕ × Core W

  abbrev answer : ℤ × Core W → ℤ → ℕ → Answer
  answer (err, c) failure field =
      if is_nonzero err then (failure, none, c) else (err, some (c.mem field), c)

  -- `if (err) return -1; return 0;`
  abbrev minus_one : ℤ × Core W → ℤ × Core W
  minus_one (err, c) = if is_nonzero err then (negsuc 0, c) else (err, c)

  -- `lx_drm_ioctl_etnaviv_gem_param`; `req` is the address of the argument here and below
  pub gem_param : (req prv param : ℕ) → Core W → Answer
  gem_param req prv param c =
      answer
        (lx_drm_ioctl abi api prv abi.cmd_get_param req (
          on_mem
            (λ m. write (req + abi.param_value) 0 (
              write (req + abi.param_param) param
                (write (req + abi.param_pipe) 0 (blank abi.cmd_get_param req m))))
            c))
        (negsuc 0) (req + abi.param_value)

  abbrev submitted : ℤ × Core W → ℕ → Answer
  submitted (err, c) field = if is_nonzero err then (err, none, c) else (err, some (c.mem field), c)

  -- `lx_drm_ioctl_etnaviv_gem_submit`
  pub gem_submit : (prv arg : ℕ) → Core W → Answer
  gem_submit prv arg c =
      submitted (lx_drm_ioctl abi api prv abi.cmd_gem_submit arg c) (arg + abi.submit_fence)

  -- `lx_drm_ioctl_etnaviv_wait_fence`
  pub wait_fence : (req prv fence : ℕ) → Core W → ℤ × Core W
  wait_fence req prv fence c = lx_drm_ioctl abi api prv abi.cmd_wait_fence req (
      on_mem
        (λ m. write (req + abi.fence_flags) 0 (
          write (req + abi.fence_fence) fence
            (write (req + abi.fence_pipe) 0 (blank abi.cmd_wait_fence req m))))
        c)

  -- `lx_drm_ioctl_etnaviv_gem_new`
  pub gem_new : (req prv size : ℕ) → Core W → Answer
  gem_new req prv size c =
      answer
        (lx_drm_ioctl abi api prv abi.cmd_gem_new req (
          on_mem
            (λ m. write (req + abi.new_handle) 0 (
              write (req + abi.new_flags) abi.bo_wc
                (write (req + abi.new_size) size (blank abi.cmd_gem_new req m))))
            c))
        (negsuc 0) (req + abi.new_handle)

  -- `lx_drm_ioctl_etnaviv_gem_info`
  pub gem_info : (req prv handle : ℕ) → Core W → Answer
  gem_info req prv handle c =
      answer
        (lx_drm_ioctl abi api prv abi.cmd_gem_info req
          (on_mem (λ m. write (req + abi.info_handle) handle (blank abi.cmd_gem_info req m)) c))
        (negsuc 0) (req + abi.info_offset)

  -- `lx_drm_ioctl_etnaviv_cpu_prep`: the wait ends five seconds from now
  pub cpu_prep : (req prv handle op : ℕ) → Core W → ℤ × Core W
  cpu_prep req prv handle op c =
      let (sec, nsec) = api.ktime c.world in
      minus_one (
        lx_drm_ioctl abi api prv abi.cmd_gem_cpu_prep req (
          on_mem
            (λ m. write (req + abi.prep_nsec) nsec (
              write (req + abi.prep_sec) (sec + 5)
                (write (req + abi.prep_op) op (write (req + abi.prep_handle) handle m))))
            c))

  -- `lx_drm_ioctl_etnaviv_cpu_fini`
  pub cpu_fini : (req prv handle : ℕ) → Core W → ℤ × Core W
  cpu_fini req prv handle c = minus_one (
      lx_drm_ioctl abi api prv abi.cmd_gem_cpu_fini req
        (on_mem (λ m. write (req + abi.fini_handle) handle (blank abi.cmd_gem_cpu_fini req m)) c))

  -- `lx_drm_ioctl_gem_close`
  pub gem_close : (req prv handle : ℕ) → Core W → ℤ × Core W
  gem_close req prv handle c = minus_one (
      lx_drm_ioctl abi api prv abi.cmd_gem_close req
        (on_mem (λ m. write (req + abi.close_handle) handle (blank abi.cmd_gem_close req m)) c))

  -- `lx_drm_close_handle`, which goes to the DRM core directly
  pub lx_drm_close_handle : (req prv handle : ℕ) → Core W → ℤ × Core W
  lx_drm_close_handle req prv handle c =
      api.drm_ioctl (c.file_of prv) abi.cmd_gem_close req
        (on_mem (λ m. write (req + abi.close_handle) handle (blank abi.cmd_gem_close req m)) c)
