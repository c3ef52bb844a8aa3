-- ===== src/Gpu/Session/Tests.antt =====
-- A session at the address 1 with its inode at 2 and its file at 3.
use genode_imx.Base.{
  pos, negsuc, ◌≡◌, inr, ◌==◌, if◌then◌else◌, true, false, some, refl, Ptr, null, [], ◌∷◌, ◌++◌,
  arith,
}
use genode_imx.Base.Run.{ok, and_then}
use genode_imx.Gpu.State.{opened, released, Drm}
use genode_imx.Gpu.Session.{lx_drm_open, lx_drm_close}
use genode_imx.Gpu.Session.Life.{AreFresh, lx_drm_open-fails}
use genode_imx.Gpu.Session.Close.{IsOpen, lx_drm_close-lx_drm_open}

abbrev empty : Drm
empty = record {
  live = λ p. false;
  private = λ p. record { file = null; inode = null };
  inode = λ p. record { i_rdev = 0; i_ino = 0 };
  fops = some (record { has_open = true; has_release = true });
  next_ino = 0;
  events = [];
}

fresh : AreFresh 1 2 3 empty
fresh = ground arith

lx_drm_open-fails_example :
    (t : Drm) × (lx_drm_open 1 2 3 226 (negsuc 15) empty ≡ ok null t)
    × ((p : Ptr) → t.live p ≡ empty.live p)
lx_drm_open-fails_example =
    lx_drm_open-fails 1 2 3 226 (negsuc 15) empty refl (omega arith) (omega arith) fresh (inr refl)

abbrev one_open : Drm
one_open = record empty {
  live = λ p. if 1 == p then true else if 2 == p then true else if 3 == p then true else false;
  private = λ p. record { file = 3; inode = 2 };
}

one_open-IsOpen : IsOpen 1 2 3 one_open
one_open-IsOpen = record {
  session = refl;
  prv_live = refl;
  inode_live = refl;
  file_live = refl;
  prv_inode = omega arith;
  prv_file = omega arith;
  inode_file = omega arith;
  not_null = (omega arith, omega arith, omega arith);
}

lx_drm_close-lx_drm_open_example :
    (t : Drm) × (and_then (lx_drm_open 1 2 3 226 (pos 0) empty) lx_drm_close ≡ ok tt t)
    × ((p : Ptr) → t.live p ≡ empty.live p)
    × (t.events ≡ [] ++ opened 2 3 ∷ released 2 3 ∷ [])
lx_drm_close-lx_drm_open_example =
    lx_drm_close-lx_drm_open 1 2 3 226 empty refl refl (omega arith) (omega arith) (omega arith)
      fresh
