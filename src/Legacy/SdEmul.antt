-- ===== src/Legacy/SdEmul.antt =====
-- src/drivers/sd_card_legacy/imx8mq/lx_emul.c
use genode_imx.Base.{ℕ, ℤ, ◌≡◌, refl}
use genode_imx.Emul.Chrdev
use genode_imx.Emul.Forward

-- `alloc_chrdev_region`
abbrev pub alloc_chrdev_region : ℕ → ℤ × ℕ × ℕ
alloc_chrdev_region = Chrdev.alloc_chrdev_region

-- `cache_line_size`
abbrev pub cache_line_size : ℕ
cache_line_size = Forward.cache_line_size

-- The current task's `in_iowait`, and the rest of the kernel.
pub record Task (W : Type 0) : Type 0 where
  pub in_iowait : ℕ
  pub world : W

module _ {W : Type 0} where
  -- `io_schedule_timeout`, over `blk_schedule_flush_plug` and `schedule_timeout`, which run with
  -- the task as it is.
  pub io_schedule_timeout : (Task W → Task W) → (ℤ → Task W → ℤ × Task W) → ℤ → Task W → ℤ × Task W
  io_schedule_timeout flush_plug schedule_timeout timeout t =
      let old_iowait = t.in_iowait in
      let (ret, u) = schedule_timeout timeout (flush_plug (record t { in_iowait = 1 })) in
      (ret, record u { in_iowait = old_iowait })

  -- Whatever runs meanwhile, the task waits for I/O afterwards if and only if it did before, and
  -- nothing else that the scheduler left is changed.
  pub io_schedule_timeout_lem :
      (flush_plug : Task W → Task W) (schedule_timeout : ℤ → Task W → ℤ × Task W) (timeout : ℤ)
      (t : Task W)
      → let (ret, u) = io_schedule_timeout flush_plug schedule_timeout timeout t in
        (u.in_iowait ≡ t.in_iowait)
        × (u.world ≡ (schedule_timeout timeout (flush_plug (record t { in_iowait = 1 }))).1.world)
  unfolding io_schedule_timeout
  io_schedule_timeout_lem flush_plug schedule_timeout timeout t = (refl, refl)
