-- ===== src/Emul/PseudoFs/Inodes.antt =====
-- New inodes, and a mount of a file system whose context `init_pseudo` fills.
use genode_imx.Base.{update, ℕ, ◌≡◌, ◌≢◌, ◌==◌, if◌then◌else◌, none, some, Ptr, null, arith}
use genode_imx.Base.Run.{ok, fault}
use genode_imx.Emul.PseudoFs.{err_ptr_enomem, Fs, init_pseudo, new_inode_pseudo, kern_mount}

-- If the operations can allocate inodes, `new_inode_pseudo` returns the inode that they allocate,
-- whose `free_inode` is its own, or the operations' where it had none, and touches no other inode;
-- where they allocate none, it returns the error pointer for a lack of memory, not NULL, and
-- changes nothing. What lies on the stack plays no part.
pub new_inode_pseudo_lem :
    (p free stack : Ptr) (s : Fs)
    → let (r, t) = new_inode_pseudo (record { alloc_inode = some p; free_inode = free }) stack s in
      ((p ≡ null) → (r ≡ err_ptr_enomem) × (t ≡ s))
      × ((p ≢ null)
          → (r ≡ p)
            × (t.free_inode p ≡ (if s.free_inode p == null then free else s.free_inode p))
            × ((q : Ptr) → q ≢ p → t.free_inode q ≡ s.free_inode q))
unfolding new_inode_pseudo
new_inode_pseudo_lem p free stack s =
    (λ none_left. ground arith, λ got. (ground arith, ground arith, λ q apart. ground arith))

-- If they cannot, the result is whatever lies on the stack.
pub new_inode_pseudo-stack :
    (free stack : Ptr) (s : Fs)
    → stack ≢ null
    → (new_inode_pseudo (record { alloc_inode = none; free_inode = free }) stack s).0 ≡ stack
unfolding new_inode_pseudo
new_inode_pseudo-stack free stack s h = ground arith

-- A mount whose type fills the context by `init_pseudo` and then sets its operations has a super
-- block of that type with those operations, if the three allocations succeed; if the one for the
-- super block or the one for the context fails while that for the mount succeeds and the context
-- held NULL, the call dereferences NULL.
pub kern_mount-init_pseudo :
    (m sb ctx fc type magic ops : ℕ) (s : Fs)
    → m ≢ null
    → let init = λ (c : Ptr) (u : Fs).
      let (p, v) = init_pseudo ctx c magic u in
      (if p == null then v else record v { pseudo_ops = update v.pseudo_ops p ops }) in
      ((sb ≢ null)
        → (ctx ≢ null)
        → (t : Fs) × (kern_mount m sb fc type (some init) s ≡ ok m t)
          × (t.mnt_sb m ≡ sb)
          × (t.s_type sb ≡ type)
          × (t.s_op sb ≡ ops)
          × (t.magic ctx ≡ magic))
      × ((sb ≡ null) → kern_mount m sb fc type (some init) s ≡ fault)
      × ((ctx ≡ null) → (s.fs_private fc ≡ null) → kern_mount m sb fc type (some init) s ≡ fault)
unfolding kern_mount init_pseudo
kern_mount-init_pseudo m sb ctx fc type magic ops s hm = (
  λ hs hc.
      let filled = record s {
        magic = update s.magic ctx magic;
        pseudo_ops = update (update s.pseudo_ops ctx null) ctx ops;
        fs_private = update s.fs_private fc ctx;
      } in
      (
        record filled {
          mnt_sb = update s.mnt_sb m sb;
          s_type = update s.s_type sb type;
          s_op = update s.s_op sb (filled.pseudo_ops (filled.fs_private fc));
        },
        ground arith,
        ground arith,
        ground arith,
        ground arith,
        ground arith,
      ),
  λ hs. ground arith,
  λ hc held. ground arith,
)
