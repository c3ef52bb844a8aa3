-- ===== src/SdCard/Claim/Rules.antt =====
-- What a claim needs and what it changes.
use genode_imx.Base.{
  ℕ, zero, suc, ℤ, pos, ◌≡◌, refl, sym, Bool, ◌≢◌, ◌⊎◌, ◌↔◌, inl, inr, true, false, Bool-cases,
  ◌==◌, ==_of_ne, ◌<◌, if◌then◌else◌, Ptr, null, arith,
}
use genode_imx.Base.Run.{Run, ok, fault, stopped, deadlock, waiting}
use genode_imx.SdCard.Store.{Store, Kernel, set_lock, spin_lock, spin_unlock}
use genode_imx.SdCard.Claim.{
  einval, ebusy, bd_may_claim, set_claiming, claim_retry, bd_prepare_to_claim,
}

-- A device may be claimed by who holds it; else it must be free, and of its whole disk it must
-- hold that it is the device itself, that it is being partitioned, or that nobody holds it.
abbrev pub MayClaim : Kernel → Store → Ptr → Ptr → Ptr → Type 0
MayClaim k s bdev whole holder =
    ((s.bdev bdev).bd_holder ≡ holder)
    ⊎ (((s.bdev bdev).bd_holder ≡ null)
        × ((whole ≡ bdev)
            ⊎ (((s.bdev whole).bd_holder ≡ k.bd_may_claim_addr)
                ⊎ ((s.bdev whole).bd_holder ≡ null))))

-- `bd_may_claim` returns true exactly when the holder has the device already, or the device is
-- free and is the whole disk, or lies on a disk that is being partitioned or that nobody holds.
pub bd_may_claim_iff :
    (k : Kernel) (s : Store) (bdev whole holder : Ptr)
    → (bd_may_claim k s bdev whole holder ≡ true) ↔ MayClaim k s bdev whole holder
unfolding bd_may_claim
bd_may_claim_iff k s bdev whole holder = (λ h. ground arith, λ h. ground arith)

-- Other tasks give the lock back before the sleeper runs again.
abbrev pub LeavesUnlocked : Kernel → Type 0
LeavesUnlocked k = (s : Store) → s.bdev_lock ≡ false → (k.schedule s).bdev_lock ≡ false

pub bd_may_claim-set_lock :
    (k : Kernel) (b : Bool) (s : Store) (bdev whole holder : Ptr)
    → bd_may_claim k (set_lock b s) bdev whole holder ≡ bd_may_claim k s bdev whole holder
unfolding bd_may_claim
bd_may_claim-set_lock k b s bdev whole holder = refl

set_lock_self : (s : Store) → s.bdev_lock ≡ false → set_lock false s ≡ s
set_lock_self s h = λ i. record s { bdev_lock = sym h i }

-- One round from a store whose lock is free.
pub claim_retry-suc :
    (n : ℕ) (k : Kernel) (bdev whole holder : Ptr) (s : Store)
    → s.bdev_lock ≡ false
    → claim_retry (suc n) k bdev whole holder s ≡ (
        if bd_may_claim k s bdev whole holder
        then (if (s.bdev whole).bd_claiming == null
            then ok (pos 0) (set_claiming whole holder s)
            else claim_retry n k bdev whole holder (k.schedule s))
        else ok ebusy s)
unfolding claim_retry spin_lock spin_unlock
claim_retry-suc n k bdev whole holder s free = ground (
  arith,
  bd_may_claim-set_lock k true s bdev whole holder,
  set_lock_self s free,
  set_lock_self (set_claiming whole holder s) free,
)

-- The store after the sleeper has slept so often.
pub awoken : Kernel → ℕ → Store → Store
awoken k zero s = s
awoken k (suc m) s = awoken k m (k.schedule s)

-- In the first so many rounds the device may be claimed, but another claim is in progress.
pub Waits : Kernel → (bdev whole holder : Ptr) → ℕ → Store → Type 0
Waits k bdev whole holder zero s = Unit {0}
Waits k bdev whole holder (suc m) s =
    MayClaim k s bdev whole holder
    × ((s.bdev whole).bd_claiming ≢ null)
    × Waits k bdev whole holder m (k.schedule s)

-- What a round that ends the call makes of the store that it finds: a claim is granted where the
-- device may be claimed and no claim is in progress, and refused where it may not.
abbrev pub Decides : Kernel → (bdev whole holder : Ptr) → Store → ℤ → Store → Type 0
Decides k bdev whole holder found r t =
    (MayClaim k found bdev whole holder
      × ((found.bdev whole).bd_claiming ≡ null)
      × (r ≡ pos 0)
      × (t ≡ set_claiming whole holder found))
    ⊎ (¬ (MayClaim k found bdev whole holder) × (r ≡ ebusy) × (t ≡ found))

-- A call has waited in some rounds, fewer than it has, and the next one decides; or it has waited
-- in all of them.
abbrev pub Claimed : ℕ → Kernel → (bdev whole holder : Ptr) → Store → Run Store ℤ → Type 0
Claimed n k bdev whole holder s (ok r t) =
    (m : ℕ) × (m < n)
    × Waits k bdev whole holder m s
    × (t.bdev_lock ≡ false)
    × Decides k bdev whole holder (awoken k m s) r t
Claimed n k bdev whole holder s waiting = Waits k bdev whole holder n s
Claimed n k bdev whole holder s fault = ⊥
Claimed n k bdev whole holder s stopped = ⊥
Claimed n k bdev whole holder s deadlock = ⊥

Claimed-suc :
    (n : ℕ) (k : Kernel) (bdev whole holder : Ptr) (s : Store) (run : Run Store ℤ)
    → MayClaim k s bdev whole holder
    → (s.bdev whole).bd_claiming ≢ null
    → Claimed n k bdev whole holder (k.schedule s) run
    → Claimed (suc n) k bdev whole holder s run
unfolding Waits awoken
Claimed-suc n k bdev whole holder s (ok r t) may busy (m, few, waits, free, decided) =
    (suc m, omega arith, (may, busy, waits), free, decided)
Claimed-suc n k bdev whole holder s waiting may busy waits = (may, busy, waits)
Claimed-suc n k bdev whole holder s fault may busy h = h
Claimed-suc n k bdev whole holder s stopped may busy h = h
Claimed-suc n k bdev whole holder s deadlock may busy h = h

claim_retry-Claimed :
    (n : ℕ) (k : Kernel) (bdev whole holder : Ptr) (s : Store)
    → LeavesUnlocked k
    → s.bdev_lock ≡ false
    → Claimed n k bdev whole holder s (claim_retry n k bdev whole holder s)
unfolding claim_retry Waits awoken
claim_retry-Claimed zero k bdev whole holder s fair free = tt
claim_retry-Claimed (suc n) k bdev whole holder s fair free =
    let round = claim_retry-suc n k bdev whole holder s free in
    let (sound, complete) = bd_may_claim_iff k s bdev whole holder in
    elim (Bool-cases (bd_may_claim k s bdev whole holder)) [
      | inr refused ↦ rw round (
          rw refused (
            0,
            omega arith,
            tt,
            free,
            inr (λ may. absurd (ground (arith, complete may, refused)), refl, refl),
          ))
      | inl granted ↦ elim (Bool-cases ((s.bdev whole).bd_claiming == null)) [
        | inl idle ↦ rw round (
            rw granted
              (rw idle (0, omega arith, tt, free, inl (sound granted, ground arith, refl, refl))))
        | inr busy ↦ rw round (
            rw granted (
              rw busy (
                Claimed-suc n k bdev whole holder s
                  (claim_retry n k bdev whole holder (k.schedule s)) (sound granted) (ground arith)
                  (claim_retry-Claimed n k bdev whole holder (k.schedule s) fair (fair s free)))))
      ]
    ]

-- Started with the lock free, `bd_prepare_to_claim` never blocks on the lock and never faults,
-- where other tasks give the lock back before the sleeper runs again. A null holder gets -EINVAL
-- and changes nothing. For another holder the call waits as long as the device may be claimed and
-- another claim is in progress, and the first round where this is not so ends it with the lock
-- free: where the device may be claimed and no claim is in progress the result is 0, the whole
-- disk is claimed for the holder and nothing else has changed; where it may not be claimed the
-- result is -EBUSY and nothing has changed.
pub bd_prepare_to_claim-Claimed :
    (n : ℕ) (k : Kernel) (bdev holder : Ptr) (s : Store)
    → LeavesUnlocked k
    → s.bdev_lock ≡ false
    → ((holder ≡ null) → bd_prepare_to_claim n k bdev holder s ≡ ok einval s)
      × ((holder ≢ null)
          → Claimed n k bdev (k.bdev_whole bdev) holder s (bd_prepare_to_claim n k bdev holder s))
unfolding bd_prepare_to_claim
bd_prepare_to_claim-Claimed n k bdev holder s fair free = (
  λ is_null. ground arith,
  λ not_null.
      rw (==_of_ne holder null not_null)
        (claim_retry-Claimed n k bdev (k.bdev_whole bdev) holder s fair free),
)

-- Where no claim is in progress one round is enough. The claim is granted exactly when
-- `bd_may_claim` says so, and then only the claim of the whole disk changes; refused, it leaves
-- the store as it was.
pub bd_prepare_to_claim-idle :
    (n : ℕ) (k : Kernel) (bdev holder : Ptr) (s : Store)
    → s.bdev_lock ≡ false
    → holder ≢ null
    → (s.bdev (k.bdev_whole bdev)).bd_claiming ≡ null
    → let whole = k.bdev_whole bdev in
      bd_prepare_to_claim (suc n) k bdev holder s ≡ (
        if bd_may_claim k s bdev whole holder
        then ok (pos 0) (set_claiming whole holder s)
        else ok ebusy s)
unfolding bd_prepare_to_claim
bd_prepare_to_claim-idle n k bdev holder s free ne idle =
    ground (arith, claim_retry-suc n k bdev (k.bdev_whole bdev) holder s free)
