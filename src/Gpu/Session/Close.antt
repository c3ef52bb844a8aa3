-- ===== src/Gpu/Session/Close.antt =====
-- Closing a session gives back what opening it took.
use genode_imx.Base.{
  ℕ, pos, ◌≡◌, ◌≢◌, true, false, ◌==◌, if◌then◌else◌, ◌∙◌, ap, append_assoc, refl, Ptr, null, [],
  ◌∷◌, ◌++◌, arith,
}
use genode_imx.Base.Run.{ok, and_then}
use genode_imx.Gpu.State.{opened, released, Drm, kfree, set_live}
use genode_imx.Gpu.Session.{has_open, has_release, lx_drm_open, lx_drm_close, log}
use genode_imx.Gpu.Session.Life.{AreFresh, with_file, open_with_file}

-- An open session: its own object, its inode and its file are three objects in use.
pub record IsOpen (prv inode file : Ptr) (s : Drm) : Type 0 where
  pub session : s.private prv ≡ record { file = file; inode = inode }
  pub prv_live : s.live prv ≡ true
  pub inode_live : s.live inode ≡ true
  pub file_live : s.live file ≡ true
  pub prv_inode : prv ≢ inode
  pub prv_file : prv ≢ file
  pub inode_file : inode ≢ file
  pub not_null : (prv ≢ null) × (inode ≢ null) × (file ≢ null)

-- If the operations have a `release`, `lx_drm_close` calls it once, with the session's inode and
-- file, and then gives back the three objects of the session and no other. If they have none, it
-- gives nothing back.
pub lx_drm_close_lem :
    (prv inode file : Ptr) (s : Drm)
    → IsOpen prv inode file s
    → ((has_release s.fops ≡ true)
        → (t : Drm) × (lx_drm_close prv s ≡ ok tt t)
          × (t.events ≡ s.events ++ released inode file ∷ [])
          × ((p : Ptr)
              → t.live p ≡ (
                  if prv == p
                  then false
                  else if inode == p
                  then false
                  else if file == p
                  then false
                  else s.live p)))
      × ((has_release s.fops ≡ false) → lx_drm_close prv s ≡ ok tt s)
unfolding lx_drm_close kfree
lx_drm_close_lem prv inode file s o = (
  λ can. (
    set_live prv false (set_live file false (set_live inode false (log (released inode file) s))),
    ground arith,
    refl,
    λ p. ground arith,
  ),
  λ cannot. ground arith,
)

-- If the file operations have both open and release, and memory for the three objects of a session
-- is found and was not in use, opening a session and closing it at once succeeds: the file is
-- opened and released, and the same objects are in use as before.
pub lx_drm_close-lx_drm_open :
    (prv inode file : Ptr) (rdev : ℕ) (s : Drm)
    → has_open s.fops ≡ true
    → has_release s.fops ≡ true
    → prv ≢ null
    → inode ≢ null
    → file ≢ null
    → AreFresh prv inode file s
    → (t : Drm) × (and_then (lx_drm_open prv inode file rdev (pos 0) s) lx_drm_close ≡ ok tt t)
      × ((p : Ptr) → t.live p ≡ s.live p)
      × (t.events ≡ s.events ++ opened inode file ∷ released inode file ∷ [])
lx_drm_close-lx_drm_open prv inode file rdev s can can' hp hi hf fresh =
    let u = with_file prv inode file rdev s in
    let is_open : IsOpen prv inode file u = record {
      session = ground arith;
      prv_live = ground arith;
      inode_live = ground arith;
      file_live = ground arith;
      prv_inode = fresh.prv_inode;
      prv_file = fresh.prv_file;
      inode_file = fresh.inode_file;
      not_null = (hp, hi, hf);
    } in
    let (t, run, more, live) = (lx_drm_close_lem prv inode file u is_open).0 can' in
    (
      t,
      ap (λ r. and_then r lx_drm_close) (open_with_file prv inode file rdev (pos 0) s can hp hi hf)
          ∙ run,
      λ p. ground (arith, live p, fresh),
      more ∙ append_assoc s.events (opened inode file ∷ []) (released inode file ∷ []),
    )
