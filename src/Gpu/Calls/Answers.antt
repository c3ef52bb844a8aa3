-- ===== src/Gpu/Calls/Answers.antt =====
-- What the requests ask of the DRM core, and what they answer.
use genode_imx.Base.{
  ℕ, ℤ, pos, negsuc, ◌+◌, ◌≡◌, ◌≢◌, ◌<◌, Option, none, some, if◌then◌else◌, is_nonzero, refl, null,
  arith,
}
use genode_imx.Gpu.Abi.{Abi, Core, DrmApi}
use genode_imx.Gpu.Ioctl.{write, on_mem, lx_drm_ioctl}
use genode_imx.Gpu.Ioctl.Dispatch.{IsPlain, lx_drm_ioctl-IsPlain}
use genode_imx.Gpu.Calls.{
  gem_param, gem_submit, wait_fence, gem_new, gem_info, cpu_prep, cpu_fini, gem_close, blank,
}

module _ {W : Type 0} (abi : Abi) (api : DrmApi W) where
  -- Without a session every request fails with -1, and none of the four that could answer with a
  -- value does.
  pub requests-null :
      (req param size handle op fence arg : ℕ) (c : Core W)
      → (((gem_param abi api req null param c).0 ≡ negsuc 0)
          × ((gem_param abi api req null param c).1 ≡ none))
        × (((gem_submit abi api null arg c).0 ≡ negsuc 0)
            × ((gem_submit abi api null arg c).1 ≡ none))
        × (((gem_new abi api req null size c).0 ≡ negsuc 0)
            × ((gem_new abi api req null size c).1 ≡ none))
        × (((gem_info abi api req null handle c).0 ≡ negsuc 0)
            × ((gem_info abi api req null handle c).1 ≡ none))
        × ((wait_fence abi api req null fence c).0 ≡ negsuc 0)
        × ((cpu_prep abi api req null handle op c).0 ≡ negsuc 0)
        × ((cpu_fini abi api req null handle c).0 ≡ negsuc 0)
        × ((gem_close abi api req null handle c).0 ≡ negsuc 0)
  unfolding gem_param gem_submit gem_new gem_info wait_fence cpu_prep cpu_fini gem_close
      lx_drm_ioctl
  requests-null req param size handle op fence arg c =
      ((refl, refl), (refl, refl), (refl, refl), (refl, refl), refl, refl, refl, refl)

  -- What a request that answers with a value makes of the core's result: the value of the field if
  -- the core returns 0, and else -1 and no value.
  abbrev pub Answers : ℤ × Core W → ℕ → ℤ × Option ℕ × Core W → Type 0
  Answers r field out =
      (((r.0 ≡ pos 0) → out ≡ (pos 0, some (r.1.mem field), r.1))
        × ((r.0 ≢ pos 0) → out ≡ (negsuc 0, none, r.1)))

  -- For a buffer of some size the DRM core is asked for a write-combined buffer of that size, in
  -- an argument whose handle is 0, and the answer is the handle that the core leaves there, or -1
  -- and no handle if the core fails.
  pub gem_new_lem :
      (req prv size : ℕ) (c : Core W)
      → prv ≢ null
      → IsPlain abi abi.cmd_gem_new
      → abi.new_size ≢ abi.new_flags
      → abi.new_size ≢ abi.new_handle
      → abi.new_flags ≢ abi.new_handle
      → (asked : Core W) × (asked.mem (req + abi.new_size) ≡ size)
        × (asked.mem (req + abi.new_flags) ≡ abi.bo_wc)
        × (asked.mem (req + abi.new_handle) ≡ 0)
        × ((a : ℕ) → a < req → asked.mem a ≡ c.mem a)
        × Answers
            (api.drm_ioctl (c.file_of prv) abi.cmd_gem_new req asked)
            (req + abi.new_handle)
            (gem_new abi api req prv size c)
  unfolding gem_new
  gem_new_lem req prv size c open_one plain d₁ d₂ d₃ =
      let asked =
        on_mem
          (λ m. write (req + abi.new_handle) 0 (
            write (req + abi.new_flags) abi.bo_wc
              (write (req + abi.new_size) size (blank abi api abi.cmd_gem_new req m))))
          c in
      let e = (lx_drm_ioctl-IsPlain abi api prv abi.cmd_gem_new req asked).1 open_one plain in
      (
        asked,
        ground arith,
        ground arith,
        ground arith,
        λ a h. ground arith,
        (λ h. ground (arith, e), λ h. ground (arith, e)),
      )

  -- Before the CPU touches a buffer the DRM core is asked to wait for it until five seconds after
  -- the present time, and the answer is 0 if the core returns 0 and else -1.
  pub cpu_prep_lem :
      (req prv handle op : ℕ) (c : Core W)
      → prv ≢ null
      → IsPlain abi abi.cmd_gem_cpu_prep
      → abi.prep_sec ≢ abi.prep_nsec
      → abi.prep_handle ≢ abi.prep_sec
      → abi.prep_handle ≢ abi.prep_nsec
      → abi.prep_handle ≢ abi.prep_op
      → abi.prep_op ≢ abi.prep_sec
      → abi.prep_op ≢ abi.prep_nsec
      → (asked : Core W) × (asked.mem (req + abi.prep_handle) ≡ handle)
        × (asked.mem (req + abi.prep_op) ≡ op)
        × (asked.mem (req + abi.prep_sec) ≡ (api.ktime c.world).0 + 5)
        × (asked.mem (req + abi.prep_nsec) ≡ (api.ktime c.world).1)
        × ((cpu_prep abi api req prv handle op c).0 ≡ (
            if is_nonzero (api.drm_ioctl (c.file_of prv) abi.cmd_gem_cpu_prep req asked).0
            then negsuc 0
            else (api.drm_ioctl (c.file_of prv) abi.cmd_gem_cpu_prep req asked).0))
  unfolding cpu_prep
  cpu_prep_lem req prv handle op c open_one plain d₁ d₂ d₃ d₄ d₅ d₆ =
      let asked =
        on_mem
          (λ m. write (req + abi.prep_nsec) (api.ktime c.world).1 (
            write (req + abi.prep_sec) ((api.ktime c.world).0 + 5)
              (write (req + abi.prep_op) op (write (req + abi.prep_handle) handle m))))
          c in
      let e = (lx_drm_ioctl-IsPlain abi api prv abi.cmd_gem_cpu_prep req asked).1 open_one plain in
      (asked, ground arith, ground arith, ground arith, ground arith, ground (arith, e))
