-- ===== src/Gpu/State.antt =====
-- The memory that src/drivers/gpu/imx8mq/lx_emul.c works on: which objects are allocated, the
-- sessions and inodes at their addresses, and the fields of ioctl arguments by their addresses.
use genode_imx.Base.{update, ℕ, Bool, true, false, Option, ◌==◌, if◌then◌else◌, Ptr, null, List}
use genode_imx.Base.Run.{Cmd, ok, fault}

-- `struct lx_drm_private`
pub record Private : Type 0 where
  pub file : Ptr
  pub inode : Ptr

-- `struct inode`
pub record Inode : Type 0 where
  pub i_rdev : ℕ
  pub i_ino : ℕ

-- Which functions the registered `struct file_operations` has.
pub record FileOperations : Type 0 where
  pub has_open : Bool
  pub has_release : Bool

pub data Event : Type 0 where
  opened : (inode file : Ptr) → Event
  released : (inode file : Ptr) → Event

pub record Drm : Type 0 where
  pub live : Ptr → Bool
  pub private : Ptr → Private
  pub inode : Ptr → Inode
  pub fops : Option FileOperations
  pub next_ino : ℕ
  pub events : List Event

abbrev pub set_live : Ptr → Bool → Drm → Drm
set_live p b s = record s { live = update s.live p b }

-- `kzalloc`, which returns the address given here; NULL stands for its failure.
unfoldable pub kzalloc : Ptr → Cmd Drm Ptr
kzalloc p s = if p == null then ok null s else ok p (set_live p true s)

-- `*p`: a fault unless an object is allocated there.
unfoldable pub deref : Ptr → Cmd Drm (Unit {0})
deref p s = if s.live p then ok tt s else fault

-- `kfree`: of NULL it does nothing, of an address with no object it is a fault.
unfoldable pub kfree : Ptr → Cmd Drm (Unit {0})
kfree p s = if p == null then ok tt s else if s.live p then ok tt (set_live p false s) else fault
