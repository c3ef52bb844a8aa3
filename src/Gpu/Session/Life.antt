-- ===== src/Gpu/Session/Life.antt =====
-- What a session allocates and gives back.
use genode_imx.Base.{
  ℕ, ℤ, pos, ◌+◌, ◌%◌, ◌^◌, ◌≡◌, ◌≢◌, ◌⊎◌, true, false, ◌==◌, if◌then◌else◌, is_nonzero, ◌∙◌, inl,
  inr, Bool-cases, ==_refl, refl, Ptr, null, [], ◌∷◌, ◌++◌, arith,
}
use genode_imx.Base.Run.{ok, fault}
use genode_imx.Gpu.State.{opened, Drm, kzalloc, deref, kfree, set_live}
use genode_imx.Gpu.Session.{
  err_ptr_enomem, has_open, alloc_anon_inode, get_next_ino, free_session, free_inode, free_file,
  open_file, lx_drm_open, set_inode, set_private, log,
}

-- The allocator hands out three objects that are not in use.
pub record AreFresh (prv inode file : Ptr) (s : Drm) : Type 0 where
  pub prv_unused : s.live prv ≡ false
  pub inode_unused : s.live inode ≡ false
  pub file_unused : s.live file ≡ false
  pub prv_inode : prv ≢ inode
  pub prv_file : prv ≢ file
  pub inode_file : inode ≢ file

-- The state in which the file is allocated.
abbrev pub with_inode : (prv inode : Ptr) → (rdev : ℕ) → Drm → Drm
with_inode prv inode rdev s =
    let ino = (s.next_ino + 1) % 2 ^ 64 in
    set_inode inode (record { i_rdev = rdev; i_ino = ino })
      (set_private prv (record { file = null; inode = inode })
        (set_inode inode (record { i_rdev = 0; i_ino = ino })
          (record (set_live inode true (set_live prv true s)) { next_ino = ino })))

-- The state in which `open` is called.
abbrev pub with_file : (prv inode file : Ptr) → (rdev : ℕ) → Drm → Drm
with_file prv inode file rdev s = log (opened inode file) (
    set_private prv (record { file = file; inode = inode })
      (set_live file true (with_inode prv inode rdev s)))

open_to_file :
    (prv inode file : Ptr) (rdev : ℕ) (r : ℤ) (s : Drm)
    → has_open s.fops ≡ true
    → prv ≢ null
    → inode ≢ null
    → lx_drm_open prv inode file rdev r s ≡ open_file prv file r (with_inode prv inode rdev s)
unfolding lx_drm_open kzalloc deref alloc_anon_inode get_next_ino
open_to_file prv inode file rdev r s can hp hi = ground (arith, ==_refl inode)

open_file_step :
    (prv inode file : Ptr) (rdev : ℕ) (r : ℤ) (s : Drm)
    → file ≢ null
    → open_file prv file r (with_inode prv inode rdev s) ≡ (
        if is_nonzero r
        then free_file prv (with_file prv inode file rdev s)
        else ok prv (with_file prv inode file rdev s))
unfolding open_file kzalloc
open_file_step prv inode file rdev r s hf = ground (arith, ==_refl prv)

pub open_with_file :
    (prv inode file : Ptr) (rdev : ℕ) (r : ℤ) (s : Drm)
    → has_open s.fops ≡ true
    → prv ≢ null
    → inode ≢ null
    → file ≢ null
    → lx_drm_open prv inode file rdev r s ≡ (
        if is_nonzero r
        then free_file prv (with_file prv inode file rdev s)
        else ok prv (with_file prv inode file rdev s))
open_with_file prv inode file rdev r s can hp hi hf =
    open_to_file prv inode file rdev r s can hp hi ∙ open_file_step prv inode file rdev r s hf

-- With three allocations and `open` that succeed, `lx_drm_open` returns the session, whose inode
-- has the device number, and has opened that inode and file; the session, its inode and its file
-- are in use then, and nothing else that was not before.
pub lx_drm_open_lem :
    (prv inode file : Ptr) (rdev : ℕ) (s : Drm)
    → has_open s.fops ≡ true
    → prv ≢ null
    → inode ≢ null
    → file ≢ null
    → (t : Drm) × (lx_drm_open prv inode file rdev (pos 0) s ≡ ok prv t)
      × (t.private prv ≡ record { file = file; inode = inode })
      × ((t.inode inode).i_rdev ≡ rdev)
      × (t.events ≡ s.events ++ opened inode file ∷ [])
      × ((p : Ptr)
          → t.live p ≡ (
              if prv == p
              then true
              else if inode == p
              then true
              else if file == p
              then true
              else s.live p))
lx_drm_open_lem prv inode file rdev s can hp hi hf = (
  with_file prv inode file rdev s,
  open_with_file prv inode file rdev (pos 0) s can hp hi hf,
  ground arith,
  ground arith,
  refl,
  λ p. ground arith,
)

-- The three objects are given back in the order file, inode, session.
free_file_lem :
    (prv inode file : Ptr) (s : Drm)
    → AreFresh prv inode file s
    → prv ≢ null
    → inode ≢ null
    → file ≢ null
    → (u : Drm) → u.private prv ≡ record { file = file; inode = inode }
    → ((p : Ptr)
        → u.live p ≡ (
            if prv == p
            then true
            else if inode == p
            then true
            else if file == p
            then true
            else s.live p))
    → (t : Drm) × (free_file prv u ≡ ok null t) × ((p : Ptr) → t.live p ≡ s.live p)
unfolding free_file free_inode free_session kfree
free_file_lem prv inode file s fresh hp hi hf u is_session live = (
  set_live prv false (set_live inode false (set_live file false u)),
  ground (arith, live prv, live inode, live file, fresh),
  λ p. ground (arith, live p, fresh),
)

without_file :
    (prv inode file : Ptr) (rdev : ℕ) (r : ℤ) (s : Drm)
    → file ≡ null
    → prv ≢ null
    → inode ≢ null
    → AreFresh prv inode file s
    → (t : Drm) × (open_file prv file r (with_inode prv inode rdev s) ≡ ok null t)
      × ((p : Ptr) → t.live p ≡ s.live p)
unfolding open_file kzalloc free_inode free_session kfree
without_file prv inode file rdev r s none_left hp hi fresh = (
  set_live prv false (
      set_live inode false
        (set_private prv (record { file = null; inode = inode }) (with_inode prv inode rdev s))),
  ground (arith, fresh),
  λ p. ground (arith, fresh),
)

-- If the file cannot be allocated or `open` fails, `lx_drm_open` returns NULL and has given back
-- what it had allocated, so that the same objects are in use as before.
pub lx_drm_open-fails :
    (prv inode file : Ptr) (rdev : ℕ) (r : ℤ) (s : Drm)
    → has_open s.fops ≡ true
    → prv ≢ null
    → inode ≢ null
    → AreFresh prv inode file s
    → (file ≡ null) ⊎ (is_nonzero r ≡ true)
    → (t : Drm) × (lx_drm_open prv inode file rdev r s ≡ ok null t)
      × ((p : Ptr) → t.live p ≡ s.live p)
lx_drm_open-fails prv inode file rdev r s can hp hi fresh why = elim (Bool-cases (file == null)) [
  | inl lacks ↦
      let (t, run, live) = without_file prv inode file rdev r s (ground arith) hp hi fresh in
      (t, open_to_file prv inode file rdev r s can hp hi ∙ run, live)
  | inr has ↦
      let nonzero : is_nonzero r ≡ true = ground arith in
      let (t, run, live) =
        free_file_lem prv inode file s fresh hp hi (ground arith) (with_file prv inode file rdev s)
          (ground arith) (λ p. ground arith) in
      (t, open_with_file prv inode file rdev r s can hp hi (ground arith) ∙ rw nonzero run, live)
]

-- `alloc_anon_inode` reports a failed allocation by an error pointer, and `lx_drm_open` tests its
-- result for NULL: where the inode cannot be allocated, the call writes through the error pointer
-- instead of giving the session back.
pub lx_drm_open-no_inode :
    (prv inode file : Ptr) (rdev : ℕ) (r : ℤ) (s : Drm)
    → has_open s.fops ≡ true
    → prv ≢ null
    → inode ≡ null
    → prv ≢ err_ptr_enomem
    → s.live err_ptr_enomem ≡ false
    → lx_drm_open prv inode file rdev r s ≡ fault
unfolding lx_drm_open kzalloc deref alloc_anon_inode
lx_drm_open-no_inode prv inode file rdev r s can hp hi apart unused = ground arith
