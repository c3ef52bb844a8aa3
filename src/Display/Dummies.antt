-- ===== src/Display/Dummies.antt =====
-- The functions of src/drivers/framebuffer/imx8mq/dummies.c that allocate and free the objects of a
-- pseudo file system, over the set of allocated objects.
use genode_imx.Base.{ℕ, ℤ, pos, ◌≡◌, ◌≢◌, Bool, true, false, ◌==◌, if◌then◌else◌, Ptr, null, arith}
use genode_imx.Base.Run.{Cmd, ok, fault, ◌>>=◌, ◌>>◌}
use genode_imx.Emul.Chrdev

abbrev pub Live : Type 0
Live = Ptr → Bool

abbrev pub set_live : Ptr → Bool → Live → Live
set_live p b live q = if p == q then b else live q

-- `kmalloc`, which returns the address given here, and NULL where it fails
unfoldable pub kmalloc : Ptr → Cmd Live Ptr
kmalloc p live = ok p (if p == null then live else set_live p true live)

-- `kfree`: nothing for NULL, a fault for an address that is not allocated
unfoldable pub kfree : Ptr → Cmd Live (Unit {0})
kfree p live =
    if p == null then ok tt live else if live p then ok tt (set_live p false live) else fault

-- `alloc_anon_inode`
pub alloc_anon_inode : Ptr → Cmd Live Ptr
unfolding kmalloc
alloc_anon_inode at = kmalloc at

-- `iput`, which keeps no count
pub iput : Ptr → Cmd Live (Unit {0})
unfolding kfree
iput inode = kfree inode

-- `simple_pin_fs`, which stores the mount in its argument
pub simple_pin_fs : Ptr → Cmd Live (ℤ × Ptr)
simple_pin_fs at = do m ← kmalloc at; (λ live. ok (pos 0, m) live)

-- `simple_release_fs`
pub simple_release_fs : Ptr → Cmd Live (Unit {0})
simple_release_fs mount = kfree mount

-- `alloc_chrdev_region`
abbrev pub alloc_chrdev_region : ℕ → ℤ × ℕ × ℕ
alloc_chrdev_region = Chrdev.alloc_chrdev_region

-- An inode that was allocated is freed by the first `iput`; a second reference to it that is put
-- as well frees it again.
pub iput_twice :
    (inode : Ptr) (live : Live)
    → inode ≢ null
    → ((after : Live) × ((do i ← alloc_anon_inode inode; iput i) live ≡ ok tt after)
        × (after inode ≡ false))
      × ((do i ← alloc_anon_inode inode; iput i; iput i) live ≡ fault)
unfolding alloc_anon_inode iput
iput_twice inode live h =
    ((set_live inode false (set_live inode true live), ground arith, ground arith), ground arith)

-- The mount that `simple_pin_fs` allocates is free after `simple_release_fs`.
pub simple_pin_fs-simple_release_fs :
    (mount : Ptr) (live : Live)
    → mount ≢ null
    → (after : Live) × ((do pinned ← simple_pin_fs mount; simple_release_fs pinned.1) live
        ≡ ok tt after)
      × (after mount ≡ false)
unfolding simple_pin_fs simple_release_fs kmalloc kfree
simple_pin_fs-simple_release_fs mount live h =
    (set_live mount false (set_live mount true live), ground arith, ground arith)
