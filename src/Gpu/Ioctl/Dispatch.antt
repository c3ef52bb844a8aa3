-- ===== src/Gpu/Ioctl/Dispatch.antt =====
-- What `lx_drm_ioctl` hands to the DRM core, and what it hands back.
use Prim.Native.Nat.{bit_and}
use genode_imx.Base.{
  ℕ, negsuc, ◌+◌, ◌^◌, ◌≡◌, ◌≢◌, ◌<◌, ◌⊎◌, true, false, ==_refl, ==_of_ne, arith, null,
}
use genode_imx.Gpu.Abi.{Abi, Core, DrmApi}
use genode_imx.Gpu.Ioctl.{
  Memory, is_driver_ioctl, on_mem, lx_drm_in, lx_drm_out, lx_drm_gem_submit_in, lx_drm_version_in,
  lx_drm_ioctl,
}
use genode_imx.Gpu.Ioctl.Pointers.{IsVersion, IsWords, lx_drm_version_out-kept}

-- A command that neither submits work nor asks for the version.
abbrev pub IsPlain : Abi → ℕ → Type 0
IsPlain abi cmd =
    let nr = abi.ioctl_nr cmd in
    ((is_driver_ioctl abi nr ≡ true) × (nr ≢ abi.command_base + abi.etnaviv_gem_submit))
    ⊎ ((is_driver_ioctl abi nr ≡ false) × (nr ≢ abi.nr_version))

lx_drm_in-plain :
    (abi : Abi) (cmd arg : ℕ) (m : Memory) → IsPlain abi cmd → lx_drm_in abi cmd arg m ≡ m
unfolding lx_drm_in
lx_drm_in-plain abi cmd arg m plain = ground arith

lx_drm_out-plain :
    (abi : Abi) (cmd arg : ℕ) (m : Memory) → IsPlain abi cmd → lx_drm_out abi cmd arg m ≡ m
unfolding lx_drm_out
lx_drm_out-plain abi cmd arg m plain = ground arith

module _ {W : Type 0} (abi : Abi) (api : DrmApi W) where
  -- Without a session `lx_drm_ioctl` returns -1 and calls nothing. With one, a command that
  -- neither submits work nor asks for the version reaches the DRM core with its argument as it is,
  -- and what the core returns and leaves in memory is the result.
  pub lx_drm_ioctl-IsPlain :
      (p cmd arg : ℕ) (c : Core W)
      → ((p ≡ null) → lx_drm_ioctl abi api p cmd arg c ≡ (negsuc 0, c))
        × ((p ≢ null)
            → IsPlain abi cmd
            → lx_drm_ioctl abi api p cmd arg c ≡ api.drm_ioctl (c.file_of p) cmd arg c)
  unfolding lx_drm_ioctl
  lx_drm_ioctl-IsPlain p cmd arg c = (
    λ none_open. ground arith,
    λ open_one plain. ground (
      arith,
      lx_drm_in-plain abi cmd arg c.mem plain,
      lx_drm_out-plain abi cmd arg (api.drm_ioctl (c.file_of p) cmd arg c).1.mem plain,
    ),
  )

  -- A version request that is marked for both directions gives the core pointers and the caller
  -- offsets: if the core leaves the three pointers as they are, then afterwards each of the three
  -- fields holds the offset that it held before.
  pub lx_drm_ioctl-version :
      (p cmd arg : ℕ) (c : Core W)
      → p ≢ null
      → is_driver_ioctl abi (abi.ioctl_nr cmd) ≡ false
      → abi.ioctl_nr cmd ≡ abi.nr_version
      → bit_and cmd abi.ioc_in ≢ 0
      → bit_and cmd abi.ioc_out ≢ 0
      → IsVersion abi
      → IsWords c.mem
      → arg < 2 ^ 64
      → let given = on_mem (lx_drm_version_in abi arg) c in
        let back = (api.drm_ioctl (c.file_of p) cmd arg given).1.mem in
        (back (arg + abi.version_name) ≡ given.mem (arg + abi.version_name))
        → (back (arg + abi.version_date) ≡ given.mem (arg + abi.version_date))
        → (back (arg + abi.version_desc) ≡ given.mem (arg + abi.version_desc))
        → let after = (lx_drm_ioctl abi api p cmd arg c).1.mem in
          (after (arg + abi.version_name) ≡ c.mem (arg + abi.version_name))
          × (after (arg + abi.version_date) ≡ c.mem (arg + abi.version_date))
          × (after (arg + abi.version_desc) ≡ c.mem (arg + abi.version_desc))
  unfolding lx_drm_ioctl lx_drm_in lx_drm_out
  lx_drm_ioctl-version p cmd arg c hp core nr marked_in marked_out v words small n₁ n₂ n₃ =
      rw
        (
          ==_of_ne _ _ hp,
          ==_of_ne _ _ marked_in,
          ==_of_ne _ _ marked_out,
          core,
          nr,
          ==_refl abi.nr_version,
        )
        (lx_drm_version_out-kept abi arg c.mem
          (api.drm_ioctl (c.file_of p) cmd arg (on_mem (lx_drm_version_in abi arg) c)).1.mem v words
          small n₁ n₂ n₃)

  -- A submission that is marked for input reaches the core with its four offsets converted, and is
  -- not converted back: what the core leaves is the result.
  pub lx_drm_ioctl-submit :
      (p cmd arg : ℕ) (c : Core W)
      → p ≢ null
      → is_driver_ioctl abi (abi.ioctl_nr cmd) ≡ true
      → abi.ioctl_nr cmd ≡ abi.command_base + abi.etnaviv_gem_submit
      → bit_and cmd abi.ioc_in ≢ 0
      → lx_drm_ioctl abi api p cmd arg c
        ≡ api.drm_ioctl (c.file_of p) cmd arg (on_mem (lx_drm_gem_submit_in abi arg) c)
  unfolding lx_drm_ioctl lx_drm_in lx_drm_out
  lx_drm_ioctl-submit p cmd arg c hp driver nr marked = ground arith
