-- ===== src/SdCard/Store.antt =====
-- The memory that src/drivers/sd_card/lx_user.c reads and writes: block devices, inodes and
-- disks at their addresses, the static tables, and the lock of the claim protocol.
use genode_imx.Base.{update, ℕ, Bool, true, false, if◌then◌else◌, Ptr, Name, List}
use genode_imx.Base.Run.{Cmd, ok, deadlock}

-- `struct block_device`, the fields that the driver touches.
pub record BlockDevice : Type 0 where
  pub bd_disk : Ptr
  pub bd_partno : ℕ
  pub bd_dev : ℕ
  pub bd_inode : Ptr
  pub bd_queue : Ptr
  pub bd_stats : Ptr
  pub bd_holder : Ptr
  pub bd_claiming : Ptr

-- `struct inode`
pub record Inode : Type 0 where
  pub i_mode : ℕ
  pub i_rdev : ℕ

-- `struct gendisk`
pub record Gendisk : Type 0 where
  pub disk_name : Name
  pub capacity : ℕ
  pub read_only : Bool
  pub part0 : Ptr
  pub queue : Ptr

pub record Store : Type 0 where
  pub bdev : Ptr → BlockDevice
  pub inode : Ptr → Inode
  pub gendisk : Ptr → Gendisk
  pub bdevs : List Ptr
  pub bdev_lock : Bool

-- What the Linux kernel gives the driver: the parts of a device number, the device of the whole
-- disk, the address of the function `bd_may_claim`, and what other tasks do while one sleeps.
pub record Kernel : Type 0 where
  pub major : ℕ → ℕ
  pub minor : ℕ → ℕ
  pub bdev_whole : Ptr → Ptr
  pub bd_may_claim_addr : Ptr
  pub schedule : Store → Store

abbrev pub set_bdev : Ptr → BlockDevice → Store → Store
set_bdev p b s = record s { bdev = update s.bdev p b }

abbrev pub set_lock : Bool → Store → Store
set_lock b s = record s { bdev_lock = b }

-- Taking a lock that is held never returns: it is no recursive lock.
unfoldable pub spin_lock : Cmd Store (Unit {0})
spin_lock s = if s.bdev_lock then deadlock else ok tt (set_lock true s)

unfoldable pub spin_unlock : Cmd Store (Unit {0})
spin_unlock s = ok tt (set_lock false s)
