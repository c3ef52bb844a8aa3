-- ===== src/Emul/PseudoFs.antt =====
-- The pseudo file system of sockets in src/drivers/nic/fec/lx_emul.c: `init_pseudo`,
-- `new_inode_pseudo` and `kern_mount`.
pub mod Inodes
use genode_imx.Base.{update, ℕ, ◌+◌, ◌-◌, ◌^◌, ◌==◌, if◌then◌else◌, Option, none, some, Ptr, null}
use genode_imx.Base.Run.{Run, ok, fault}

-- `ERR_PTR(-ENOMEM)`
abbrev pub err_ptr_enomem : Ptr
err_ptr_enomem = 2 ^ 64 - 12

-- `struct super_operations`: the inode that the function `alloc_inode` returns, if there is such
-- a function, and the function `free_inode`.
pub record SuperOps : Type 0 where
  pub alloc_inode : Option Ptr
  pub free_inode : Ptr

-- The objects at their addresses: `fs_private` of a context, the magic number and operations of a
-- pseudo context, type and operations of a super block, the super block of a mount, and
-- `free_inode` of an inode.
pub record Fs : Type 0 where
  pub fs_private : Ptr → Ptr
  pub magic : Ptr → ℕ
  pub pseudo_ops : Ptr → Ptr
  pub s_type : Ptr → Ptr
  pub s_op : Ptr → Ptr
  pub mnt_sb : Ptr → Ptr
  pub free_inode : Ptr → Ptr
  pub freed : Ptr → ℕ

-- `init_pseudo`; `ctx` is what the allocation, which clears its memory, returns.
pub init_pseudo : (ctx fc magic : ℕ) → Fs → Ptr × Fs
init_pseudo ctx fc magic s = if ctx == null then (null, s) else (
  ctx,
  record s {
    magic = update s.magic ctx magic;
    pseudo_ops = update s.pseudo_ops ctx null;
    fs_private = update s.fs_private fc ctx;
  },
)

-- `new_inode_pseudo`; `stack` is what the variable `inode` holds before it is set.
pub new_inode_pseudo : SuperOps → (stack : Ptr) → Fs → Ptr × Fs
new_inode_pseudo ops stack s =
    let inode : Ptr = elim ops.alloc_inode [ none ↦ stack | some p ↦ p ] in
    if inode == null
    then (err_ptr_enomem, s)
    else if s.free_inode inode == null
    then (inode, record s { free_inode = update s.free_inode inode ops.free_inode })
    else (inode, s)

-- `kern_mount` of a type whose function `init_fs_context`, if it has one, is the one given; `fc`
-- is the context on the stack, `m` and `sb` what the two allocations return.
pub kern_mount : (m sb fc type : Ptr) → Option (Ptr → Fs → Fs) → Fs → Run Fs Ptr
kern_mount m sb fc type init s = if m == null then ok null s else elim init [
  | none ↦ ok err_ptr_enomem (record s { freed = update s.freed m (s.freed m + 1) })
  | some f ↦
      let t = f fc s in
      if sb == null
      then fault
      else if t.fs_private fc == null
      then fault
      else ok m (record t {
        mnt_sb = update t.mnt_sb m sb;
        s_type = update t.s_type sb type;
        s_op = update t.s_op sb (t.pseudo_ops (t.fs_private fc));
      })
]
