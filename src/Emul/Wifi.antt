-- ===== src/Emul/Wifi.antt =====
-- The functions of src/lib/imx8mq_wifi/dummies.c that do more than trace their call, and the
-- copies of `get_next_ino` and `__arch_copy_from_user` in it and in src/drivers/nic/fec/dummies.c.
use Prim.Native.Nat.{bit_xor}
use genode_imx.Base.{
  update, ℕ, zero, suc, ◌+◌, ◌%◌, ◌^◌, ◌≡◌, ◌≢◌, ◌<◌, ◌≤◌, ℤ, pos, negsuc, Bool, true, false, ◌==◌,
  if◌then◌else◌, Ptr, null, refl, List, [], ◌∷◌, length, get_or, arith,
}
use genode_imx.Base.Run.{Cmd, ok, fault, ◌>>=◌, ◌>>◌}
use genode_imx.Emul.Forward.{Bytes}
use genode_imx.Emul.Forward

-- `__crypto_xor`; an array that is too short is left as it is.
pub crypto_xor : (dst src1 src2 : List ℕ) → (len : ℕ) → List ℕ
crypto_xor dst src1 src2 zero = dst
crypto_xor (d ∷ dst) (a ∷ src1) (b ∷ src2) (suc len) = bit_xor a b ∷ crypto_xor dst src1 src2 len
crypto_xor dst src1 src2 (suc len) = dst

-- Where all three arrays have `len` bytes, each of the first `len` bytes of the destination becomes
-- the exclusive or of those of the sources.
pub crypto_xor_lem :
    (dst src1 src2 : List ℕ) (len i : ℕ)
    → len ≤ length dst
    → len ≤ length src1
    → len ≤ length src2
    → i < len
    → get_or (crypto_xor dst src1 src2 len) i 0 ≡ bit_xor (get_or src1 i 0) (get_or src2 i 0)
unfolding crypto_xor
crypto_xor_lem dst src1 src2 zero i hd h1 h2 h = absurd (omega arith)
crypto_xor_lem [] src1 src2 (suc len) i hd h1 h2 h = absurd (omega arith)
crypto_xor_lem (d ∷ dst) [] src2 (suc len) i hd h1 h2 h = absurd (omega arith)
crypto_xor_lem (d ∷ dst) (a ∷ src1) [] (suc len) i hd h1 h2 h = absurd (omega arith)
crypto_xor_lem (d ∷ dst) (a ∷ src1) (b ∷ src2) (suc len) zero hd h1 h2 h = refl
crypto_xor_lem (d ∷ dst) (a ∷ src1) (b ∷ src2) (suc len) (suc i) hd h1 h2 h =
    crypto_xor_lem dst src1 src2 len i (omega arith) (omega arith) (omega arith) (omega arith)

-- The directory of each kobject, and which directories are allocated.
pub record Sysfs : Type 0 where
  pub sd : Ptr → Ptr
  pub live : Ptr → Bool

-- `sysfs_create_dir_ns`; `dir` is what the allocation returns.
pub sysfs_create_dir_ns : (dir kobj : Ptr) → Cmd Sysfs ℤ
sysfs_create_dir_ns dir kobj s =
    if kobj == null
    then ok (negsuc 21) s
    else ok (pos 0) (record {
      sd = update s.sd kobj dir;
      live = if dir == null then s.live else update s.live dir true;
    })

-- `sysfs_remove_dir`; freeing what is not allocated is a fault.
pub sysfs_remove_dir : Ptr → Cmd Sysfs (Unit {0})
sysfs_remove_dir kobj s =
    let dir = s.sd kobj in
    if kobj == null
    then ok tt s
    else if dir == null
    then ok tt s
    else if s.live dir
    then ok tt (record s { live = update s.live dir false })
    else fault

-- A directory that was created can be removed, and is free afterwards; but `sysfs_remove_dir`
-- leaves the pointer to it, so that removing it a second time frees it twice.
pub sysfs_remove_dir_twice :
    (dir kobj : Ptr) (s : Sysfs)
    → dir ≢ null
    → kobj ≢ null
    → ((t : Sysfs) × ((do err ← sysfs_create_dir_ns dir kobj; sysfs_remove_dir kobj) s ≡ ok tt t)
        × (t.live dir ≡ false))
      × ((do err ← sysfs_create_dir_ns dir kobj; sysfs_remove_dir kobj; sysfs_remove_dir kobj) s
          ≡ fault)
unfolding sysfs_create_dir_ns sysfs_remove_dir
sysfs_remove_dir_twice dir kobj s hd hk = (
  (
    record { sd = update s.sd kobj dir; live = update (update s.live dir true) dir false },
    ground arith,
    ground arith,
  ),
  ground arith,
)

-- `get_next_ino` over its static counter: the number, and the counter.
pub get_next_ino : ℕ → ℕ × ℕ
get_next_ino count = let next = (count + 1) % 2 ^ 32 in (next, next)

-- No number is handed out twice before the counter wraps, and none is 0.
pub get_next_ino_lem :
    (count : ℕ)
    → count + 1 < 2 ^ 32
    → let (ino, next) = get_next_ino count in (ino ≡ count + 1) × (next ≡ ino) × (ino ≢ 0)
unfolding get_next_ino
get_next_ino_lem count h = (omega arith, refl, omega arith)

-- `__arch_copy_from_user`
abbrev pub arch_copy_from_user : (to from n : ℕ) → Bytes → ℕ × Bytes
arch_copy_from_user = Forward.arch_copy_from_user
