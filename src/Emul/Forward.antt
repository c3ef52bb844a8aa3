-- ===== src/Emul/Forward.antt =====
-- Small functions of the drivers' lx_emul.c files: copies between the two sides of a system call,
-- the rtnl mutex, mounts, and calls that only pass their arguments on.
use genode_imx.Base.{
  ℕ, ◌+◌, ◌-◌, ◌^◌, ℤ, pos, ◌≡◌, ◌<◌, Bool, true, false, ◌==◌, ltb, leb, ◌&&◌, if◌then◌else◌, Ptr,
  null, refl, arith,
}
use genode_imx.Base.Run.{Cmd, ok, deadlock, ◌>>◌}

-- The bytes at their addresses.
abbrev pub Bytes : Type 0
Bytes = Ptr → ℕ

-- `memcpy(to, from, n)`
abbrev pub copied : (to from n : ℕ) → Bytes → Bytes
copied to from n m p = if leb to p && ltb p (to + n) then m (from + (p - to)) else m p

-- `arm_copy_from_user` of src/drivers/usb_host/imx/lx_emul.c: the bytes that were not copied, and
-- the memory.
pub arm_copy_from_user : (to from n : ℕ) → Bytes → ℕ × Bytes
arm_copy_from_user to from n m = (0, copied to from n m)

-- `arm_copy_to_user` of the same file
pub arm_copy_to_user : (to from n : ℕ) → Bytes → ℕ × Bytes
arm_copy_to_user to from n m = (0, copied to from n m)

-- `__arch_copy_from_user` of src/drivers/usb_host/imx8mq/lx_emul.c
abbrev pub arch_copy_from_user : (to from n : ℕ) → Bytes → ℕ × Bytes
arch_copy_from_user to from n m = (0, copied to from n m)

-- `__arch_copy_to_user` of the same file
abbrev pub arch_copy_to_user : (to from n : ℕ) → Bytes → ℕ × Bytes
arch_copy_to_user to from n m = (0, copied to from n m)

-- What is copied to the other side, and from there back to any place, reads in that place as it
-- did before the copies, and neither copy reports bytes as left out.
pub arm_copy_to_user-from_user :
    (user from back n i : ℕ) (m : Bytes)
    → i < n
    → let (left, m') = arm_copy_to_user user from n m in
      let (left', m'') = arm_copy_from_user back user n m' in
      (left ≡ 0) × (left' ≡ 0) × (m'' (back + i) ≡ m (from + i))
unfolding arm_copy_to_user arm_copy_from_user
arm_copy_to_user-from_user user from back n i m h =
    let at : back + i - back ≡ i = omega arith in
    let at' : user + i - user ≡ i = omega arith in
    let inside : leb back (back + i) && ltb (back + i) (back + n) ≡ true = ground arith in
    let inside' : leb user (user + i) && ltb (user + i) (user + n) ≡ true = ground arith in
    (refl, refl, rw (inside, at, inside', at'))

-- `rtnl_lock` of src/drivers/nic/fec_legacy/lx_emul.c; the state tells whether the mutex is held.
pub rtnl_lock : Cmd Bool (Unit {0})
rtnl_lock held = if held then deadlock else ok tt true

-- `rtnl_lock_killable`
abbrev pub rtnl_lock_killable : Cmd Bool ℤ
rtnl_lock_killable held = if held then deadlock else ok (pos 0) true

-- `rtnl_unlock`
pub rtnl_unlock : Cmd Bool (Unit {0})
rtnl_unlock held = ok tt false

-- `rtnl_is_locked`
pub rtnl_is_locked : Cmd Bool Bool
rtnl_is_locked held = ok held held

-- Between lock and unlock the mutex reads as held, and afterwards as free.
pub rtnl_lock-rtnl_unlock :
    ((do rtnl_lock; rtnl_is_locked) false ≡ ok true true)
    × ((do rtnl_lock; rtnl_unlock; rtnl_is_locked) false ≡ ok false false)
unfolding rtnl_lock rtnl_unlock rtnl_is_locked
rtnl_lock-rtnl_unlock = (refl, refl)

-- `ERR_PTR(-ENOMEM)`
abbrev pub err_ptr_enomem : Ptr
err_ptr_enomem = 2 ^ 64 - 12

-- `kern_mount` of src/drivers/gpu/imx8mq/lx_emul.c, given what its allocation returns
abbrev pub kern_mount : Ptr → Ptr
kern_mount m = if m == null then err_ptr_enomem else m

-- `simple_pin_fs` of the same file: its result, and the mount that it stores
abbrev pub simple_pin_fs : Ptr → ℤ × Ptr
simple_pin_fs mount = (pos 0, mount)

-- `dma_get_required_mask` of the same file
abbrev pub dma_get_required_mask : ℕ
dma_get_required_mask = 0xbfffffff

-- `vzalloc` of the same file, over the aligned allocator of a size and an alignment
abbrev pub vzalloc : (ℕ → ℕ → Ptr) → (arch_kmalloc_minalign size : ℕ) → Ptr
vzalloc alloc_aligned minalign size = alloc_aligned size minalign

-- `page_frag_alloc` of src/drivers/nic/fec_legacy/lx_emul.c, over the same allocator
abbrev pub page_frag_alloc : (ℕ → ℕ → Ptr) → (arch_kmalloc_minalign fragsz : ℕ) → Ptr
page_frag_alloc alloc_aligned minalign fragsz = alloc_aligned fragsz minalign

-- `dmam_alloc_attrs` of src/drivers/nic/fec/lx_emul.c, given what the allocation returns
abbrev pub dmam_alloc_attrs : Ptr → Ptr
dmam_alloc_attrs vaddr = if vaddr == null then null else vaddr

-- `devm_clk_get` and `devm_clk_get_optional` of src/drivers/sd_card/lx_emul.c over `clk_get` of a
-- device and a name
abbrev pub devm_clk_get : (Ptr → Ptr → Ptr) → Ptr → Ptr → Ptr
devm_clk_get clk_get dev id = clk_get dev id

abbrev pub devm_clk_get_optional : (Ptr → Ptr → Ptr) → Ptr → Ptr → Ptr
devm_clk_get_optional clk_get dev id = devm_clk_get clk_get dev id

-- `cache_line_size` of src/drivers/sd_card/lx_emul.c
abbrev pub cache_line_size : ℕ
cache_line_size = 128
