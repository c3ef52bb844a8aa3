-- ===== src/Gpu/Session.antt =====
-- Opening and closing a DRM session: `__register_chrdev`, `alloc_anon_inode`, `lx_drm_open` and
-- `lx_drm_close` of src/drivers/gpu/imx8mq/lx_emul.c.
pub mod Life
pub mod Close
mod Tests
use genode_imx.Base.{
  update, ℕ, ℤ, pos, ◌+◌, ◌-◌, ◌%◌, ◌^◌, Bool, true, false, not, Option, none, some, ◌==◌, ◌||◌,
  if◌then◌else◌, is_nonzero, Ptr, null, List, [], ◌∷◌, ◌++◌,
}
use genode_imx.Base.Run.{Cmd, pure, get_state, modify, ◌>>=◌, ◌>>◌}
use genode_imx.Gpu.State.{
  Private, Inode, FileOperations, Event, opened, released, Drm, kzalloc, deref, kfree,
}

-- `ERR_PTR(-ENOMEM)`
abbrev pub err_ptr_enomem : Ptr
err_ptr_enomem = 2 ^ 64 - 12

-- `__register_chrdev`
pub register_chrdev : FileOperations → Cmd Drm ℤ
register_chrdev f = do modify (λ s. record s { fops = some f }); pure (pos 0)

abbrev pub set_inode : Ptr → Inode → Drm → Drm
set_inode p i s = record s { inode = update s.inode p i }

abbrev pub set_private : Ptr → Private → Drm → Drm
set_private p v s = record s { private = update s.private p v }

abbrev pub log : Event → Drm → Drm
log e s = record s { events = s.events ++ e ∷ [] }

-- `_get_next_ino`
pub get_next_ino : Cmd Drm ℕ
get_next_ino = do
  modify (λ s. record s { next_ino = (s.next_ino + 1) % 2 ^ 64 })
  s ← get_state
  pure s.next_ino

-- `alloc_anon_inode`
pub alloc_anon_inode : Ptr → Cmd Drm Ptr
alloc_anon_inode at = do
  inode ← kzalloc at
  if inode == null then pure err_ptr_enomem else do
    ino ← get_next_ino
    modify (set_inode inode (record { i_rdev = 0; i_ino = ino }))
    pure inode

-- The labels `free_file`, `free_inode` and `free_session` of `lx_drm_open`.
pub free_session : Ptr → Cmd Drm Ptr
free_session prv = do kfree prv; pure null

pub free_inode : Ptr → Cmd Drm Ptr
free_inode prv = do s ← get_state; kfree (s.private prv).inode; free_session prv

pub free_file : Ptr → Cmd Drm Ptr
free_file prv = do s ← get_state; kfree (s.private prv).file; free_inode prv

abbrev pub has_open : Option FileOperations → Bool
has_open none = false
has_open (some f) = f.has_open

abbrev pub has_release : Option FileOperations → Bool
has_release none = false
has_release (some f) = f.has_release

-- `lx_drm_open` from the allocation of the file on.
pub open_file : (prv file : Ptr) → (open_result : ℤ) → Cmd Drm Ptr
open_file prv file open_result = do
  f ← kzalloc file
  s ← get_state
  modify (set_private prv (record (s.private prv) { file = f }))
  if f == null then free_inode prv else do
    modify (log (opened (s.private prv).inode f))
    if is_nonzero open_result then free_file prv else pure prv

-- `lx_drm_open`, given what its three allocations return, the device number and what the
-- function `open` of the registered operations returns.
pub lx_drm_open : (prv inode file : Ptr) → (rdev : ℕ) → (open_result : ℤ) → Cmd Drm Ptr
lx_drm_open prv inode file rdev open_result = do
  s ← get_state
  if not (has_open s.fops) then pure null else do
    p ← kzalloc prv
    if p == null then pure null else do
      i ← alloc_anon_inode inode
      modify (set_private p (record { file = null; inode = i }))
      if i == null then free_session p else do
        deref i
        modify (λ t. set_inode i (record (t.inode i) { i_rdev = rdev }) t)
        open_file p file open_result

-- `lx_drm_close`
pub lx_drm_close : Ptr → Cmd Drm (Unit {0})
lx_drm_close p = do
  s ← get_state
  if (p == null) || not (has_release s.fops) then pure tt else do
    modify (log (released (s.private p).inode (s.private p).file))
    kfree (s.private p).inode
    kfree (s.private p).file
    kfree p
