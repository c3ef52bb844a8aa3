-- ===== src/SdCard/Claim.antt =====
-- The claim protocol of src/drivers/sd_card/lx_user.c: `bd_may_claim`, `bd_prepare_to_claim`, and
-- the `bd_abort_claiming` of src/drivers/sd_card/dummies.c.
pub mod Rules
pub mod Hang
mod Tests
use genode_imx.Base.{
  ℕ, zero, suc, ℤ, pos, negsuc, Bool, true, false, not, ◌==◌, if◌then◌else◌, Ptr, null,
}
use genode_imx.Base.Run.{Cmd, Run, ok, waiting, pure, get_state, modify, ◌>>=◌, ◌>>◌}
use genode_imx.SdCard.Store.{BlockDevice, Store, Kernel, set_bdev, spin_lock, spin_unlock}

abbrev pub einval : ℤ
einval = negsuc 21

abbrev pub ebusy : ℤ
ebusy = negsuc 15

-- `bd_may_claim`: the devices are passed by address, since the code compares them too.
pub bd_may_claim : Kernel → Store → (bdev whole holder : Ptr) → Bool
bd_may_claim k s bdev whole holder =
    if (s.bdev bdev).bd_holder == holder
    then true
    else if not ((s.bdev bdev).bd_holder == null)
    then false
    else if whole == bdev
    then true
    else if (s.bdev whole).bd_holder == k.bd_may_claim_addr
    then true
    else if not ((s.bdev whole).bd_holder == null)
    then false
    else true

abbrev pub set_claiming : Ptr → Ptr → Store → Store
set_claiming whole holder s = set_bdev whole (record (s.bdev whole) { bd_claiming = holder }) s

-- The loop from the label `retry`, for as many rounds as the first argument says.
pub claim_retry : ℕ → Kernel → (bdev whole holder : Ptr) → Cmd Store ℤ
claim_retry zero k bdev whole holder = λ _. waiting
claim_retry (suc n) k bdev whole holder = do
  spin_lock
  s ← get_state
  if not (bd_may_claim k s bdev whole holder)
      then (do spin_unlock; pure ebusy)
      else if not ((s.bdev whole).bd_claiming == null)
      then (do spin_unlock; modify k.schedule; claim_retry n k bdev whole holder)
      else (do modify (set_claiming whole holder); spin_unlock; pure (pos 0))

-- `bd_prepare_to_claim`
pub bd_prepare_to_claim : ℕ → Kernel → (bdev holder : Ptr) → Cmd Store ℤ
bd_prepare_to_claim n k bdev holder =
    let whole = k.bdev_whole bdev in
    if holder == null then pure einval else claim_retry n k bdev whole holder

-- `bd_abort_claiming` of dummies.c traces its call and does nothing.
pub bd_abort_claiming : (bdev holder : Ptr) → Cmd Store (Unit {0})
bd_abort_claiming bdev holder = pure tt
