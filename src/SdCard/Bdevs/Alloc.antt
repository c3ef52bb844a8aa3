-- ===== src/SdCard/Bdevs/Alloc.antt =====
-- What `bdev_alloc` makes of its allocations.
use genode_imx.Base.{ℕ, ◌≡◌, ◌≢◌, ◌⊎◌, false, true, refl, Ptr, null, arith}
use genode_imx.Base.Run.{ok, fault}
use genode_imx.SdCard.Store.{Store, set_bdev, set_lock, spin_lock, spin_unlock}
use genode_imx.SdCard.Bdevs.{s_ifblk, set_inode, new_bdev, bdev_alloc}

-- With three allocations that succeed and the lock free, `bdev_alloc` returns the new device with
-- its disk, partition number, inode, queue and statistics set, no number, no holder and no claim,
-- sets the inode's mode, changes no other device, and gives the lock back.
pub bdev_alloc_lem :
    (bdev inode stats disk : Ptr) (partno : ℕ) (s : Store)
    → bdev ≢ null
    → inode ≢ null
    → disk ≢ null
    → s.bdev_lock ≡ false
    → (t : Store) × (bdev_alloc bdev inode stats disk partno s ≡ ok bdev t)
      × (t.bdev bdev ≡ new_bdev s inode stats disk partno)
      × ((t.inode inode).i_mode ≡ s_ifblk)
      × ((p : Ptr) → p ≢ bdev → t.bdev p ≡ s.bdev p)
      × (t.bdevs ≡ s.bdevs)
      × (t.bdev_lock ≡ false)
unfolding bdev_alloc spin_lock spin_unlock
bdev_alloc_lem bdev inode stats disk partno s hb hi hd free = (
  set_lock false (
      set_bdev bdev (new_bdev s inode stats disk partno)
        (set_lock true (set_inode inode (record { i_mode = s_ifblk; i_rdev = 0 }) s))),
  ground arith,
  ground arith,
  ground arith,
  λ p ne. ground arith,
  refl,
  refl,
)

-- `bdev_alloc` checks neither allocation: if `kzalloc` gives no memory for the inode or the
-- device, the call dereferences NULL.
pub bdev_alloc-unchecked :
    (bdev inode stats disk : Ptr) (partno : ℕ) (s : Store)
    → (bdev ≡ null) ⊎ (inode ≡ null)
    → s.bdev_lock ≡ false
    → bdev_alloc bdev inode stats disk partno s ≡ fault
unfolding bdev_alloc spin_lock
bdev_alloc-unchecked bdev inode stats disk partno s h free = ground arith
