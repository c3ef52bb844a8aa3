-- ===== src/Gpu/Ioctl/Tests.antt =====
-- The numbers of Linux' DRM headers, and ioctls on an argument at the address 1000.
use genode_imx.Base.{ℕ, ◌+◌, ◌-◌, ◌^◌, ◌≡◌, refl, arith}
use genode_imx.Gpu.Abi.{Core}
use genode_imx.Gpu.Ioctl.{Memory, lx_drm_version_in, lx_drm_version_out, lx_drm_ioctl}
use genode_imx.Gpu.Ioctl.Pointers.{IsVersion, IsSubmit}
use genode_imx.Gpu.Ioctl.Dispatch.{lx_drm_ioctl-version}
use genode_imx.Gpu.Linux.{linux, keeps}

abbrev memory : Memory
memory a = a

abbrev core : Core ℕ
core = record { mem = λ a. 64; file_of = λ p. 3; world = 0 }

is_version : IsVersion linux
is_version = omega arith

is_submit : IsSubmit linux
is_submit = omega arith

offsets_wrap :
    lx_drm_version_out linux 1000 (lx_drm_version_in linux 1000 (λ a. 2 ^ 64 - 1)) 1016 ≡ 2 ^ 64 - 1
unfolding lx_drm_version_out lx_drm_version_in
offsets_wrap = refl

-- `DRM_IOCTL_VERSION`
abbrev version : ℕ
version = 0xc0406400

lx_drm_ioctl-version_example :
    let after = (lx_drm_ioctl linux keeps 1 version 1000 core).1.mem in
    (after (1000 + linux.version_name) ≡ 64)
    × (after (1000 + linux.version_date) ≡ 64)
    × (after (1000 + linux.version_desc) ≡ 64)
lx_drm_ioctl-version_example =
    lx_drm_ioctl-version linux keeps 1 version 1000 core (omega arith) refl refl (omega arith)
      (omega arith) is_version (λ a. omega arith) (omega arith) refl refl refl
