-- ===== src/SdCard/Bdevs.antt =====
-- The block-device table of src/drivers/sd_card/lx_user.c: `bdev_alloc`, `bdev_add` and
-- `blkdev_get_by_dev`.
pub mod Alloc
pub mod Lookup
mod Tests
use genode_imx.Base.{update, ℕ, ◌==◌, ltb, if◌then◌else◌, Ptr, null, get_or, set}
use genode_imx.Base.Run.{Cmd, fault, stopped, ok, pure, modify, ◌>>=◌, ◌>>◌}
use genode_imx.SdCard.Store.{BlockDevice, Inode, Store, Kernel, set_bdev, spin_lock, spin_unlock}

-- `S_IFBLK`
abbrev pub s_ifblk : ℕ
s_ifblk = 0o60000

-- `MAX_BDEV`
abbrev pub max_bdev : ℕ
max_bdev = 256

-- `*p`: a fault at NULL.
abbrev pub deref : Ptr → Cmd Store (Unit {0})
deref p = if p == null then (λ _. fault) else pure tt

-- What `kzalloc` leaves at a new block device.
abbrev pub zero_bdev : BlockDevice
zero_bdev = record {
  bd_disk = null;
  bd_partno = 0;
  bd_dev = 0;
  bd_inode = null;
  bd_queue = null;
  bd_stats = null;
  bd_holder = null;
  bd_claiming = null;
}

abbrev pub set_inode : Ptr → Inode → Store → Store
set_inode p n s = record s { inode = update s.inode p n }

-- The new device's fields.
abbrev pub new_bdev : Store → (inode stats disk : Ptr) → ℕ → BlockDevice
new_bdev s inode stats disk partno = record zero_bdev {
  bd_disk = disk;
  bd_partno = partno;
  bd_inode = inode;
  bd_queue = (s.gendisk disk).queue;
  bd_stats = stats;
}

-- `bdev_alloc`; `bdev`, `inode` and `stats` are what the three allocations return.
unfoldable pub bdev_alloc : (bdev inode stats disk : Ptr) → ℕ → Cmd Store Ptr
bdev_alloc bdev inode stats disk partno = do
  deref inode
  modify (set_inode inode (record { i_mode = s_ifblk; i_rdev = 0 }))
  spin_lock
  deref bdev
  deref disk
  modify (λ s. set_bdev bdev (new_bdev s inode stats disk partno) s)
  spin_unlock
  pure bdev

abbrev pub set_dev : Ptr → ℕ → Store → Store
set_dev bdev dev s = set_bdev bdev (record (s.bdev bdev) { bd_dev = dev }) s

-- `bdev_add`
pub bdev_add : Kernel → Ptr → ℕ → Cmd Store (Unit {0})
bdev_add k bdev dev = do
  modify (set_dev bdev dev)
  (if ltb (k.major dev) max_bdev
      then modify (λ s. record s { bdevs = set s.bdevs (k.major dev) bdev })
      else (λ _. stopped))

-- `blkdev_get_by_dev`
pub blkdev_get_by_dev : Kernel → ℕ → Store → Ptr
blkdev_get_by_dev k dev s =
    if ltb (k.major dev) max_bdev then get_or s.bdevs (k.major dev) null else null
