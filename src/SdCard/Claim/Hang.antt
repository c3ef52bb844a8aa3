-- ===== src/SdCard/Claim/Hang.antt =====
-- How long a claim waits for another one.
use genode_imx.Base.{
  ℕ, zero, suc, ℤ, pos, ◌≡◌, refl, ◌≢◌, false, true, ◌∙◌, ==_of_ne, Bool-cases, inl, inr, ◌==◌, Ptr,
  null, arith,
}
use genode_imx.Base.Run.{ok, waiting, and_then, ◌>>◌}
use genode_imx.SdCard.Store.{Store, Kernel}
use genode_imx.SdCard.Claim.{
  einval, ebusy, bd_may_claim, claim_retry, bd_prepare_to_claim, bd_abort_claiming, set_claiming,
}
use genode_imx.SdCard.Claim.Rules.{LeavesUnlocked, claim_retry-suc, bd_prepare_to_claim-idle}

-- The store after the sleeper has slept `m` times.
unfoldable pub slept : ℕ → Kernel → Store → Store
slept zero k s = s
slept (suc m) k s = slept m k (k.schedule s)

pub claim_retry-returns :
    (m : ℕ) (k : Kernel) (bdev whole holder : Ptr) (s : Store)
    → LeavesUnlocked k
    → s.bdev_lock ≡ false
    → ((slept m k s).bdev whole).bd_claiming ≡ null
    → (r : ℤ) × (t : Store) × (claim_retry (suc m) k bdev whole holder s ≡ ok r t)
unfolding slept
claim_retry-returns zero k bdev whole holder s fair free done =
    rw (claim_retry-suc zero k bdev whole holder s free, done)
      (elim (Bool-cases (bd_may_claim k s bdev whole holder)) [
        | inl may ↦ (pos 0, set_claiming whole holder s, rw may)
        | inr not ↦ (ebusy, s, rw not)
      ])
claim_retry-returns (suc m) k bdev whole holder s fair free done =
    rw (claim_retry-suc (suc m) k bdev whole holder s free)
      (elim (Bool-cases (bd_may_claim k s bdev whole holder)) [
        | inr not ↦ (ebusy, s, rw not)
        | inl may ↦ elim (Bool-cases ((s.bdev whole).bd_claiming == null)) [
          | inl idle ↦ (pos 0, set_claiming whole holder s, rw (may, idle))
          | inr busy ↦
              rw (may, busy)
                (claim_retry-returns m k bdev whole holder (k.schedule s) fair (fair s free) done)
        ]
      ])

-- A claim that finds another one in progress returns within `m + 1` rounds if that one has ended
-- after `m` sleeps, provided that the lock is free at the start and after each sleep.
pub bd_prepare_to_claim-returns :
    (m : ℕ) (k : Kernel) (bdev holder : Ptr) (s : Store)
    → LeavesUnlocked k
    → s.bdev_lock ≡ false
    → ((slept m k s).bdev (k.bdev_whole bdev)).bd_claiming ≡ null
    → (r : ℤ) × (t : Store) × (bd_prepare_to_claim (suc m) k bdev holder s ≡ ok r t)
unfolding bd_prepare_to_claim
bd_prepare_to_claim-returns m k bdev holder s fair free done = elim (Bool-cases (holder == null)) [
  | inl is_null ↦ (einval, s, rw is_null)
  | inr not_null ↦
      rw not_null (claim_retry-returns m k bdev (k.bdev_whole bdev) holder s fair free done)
]

-- While a task sleeps nobody touches the device nor its disk, and the lock stays free.
abbrev pub Undisturbed : Kernel → Ptr → Ptr → Type 0
Undisturbed k bdev whole =
    (s : Store)
    → s.bdev_lock ≡ false
    → ((k.schedule s).bdev_lock ≡ false)
      × ((k.schedule s).bdev bdev ≡ s.bdev bdev)
      × ((k.schedule s).bdev whole ≡ s.bdev whole)

bd_may_claim-congr :
    (k : Kernel) (s t : Store) (bdev whole holder : Ptr)
    → t.bdev bdev ≡ s.bdev bdev
    → t.bdev whole ≡ s.bdev whole
    → bd_may_claim k t bdev whole holder ≡ bd_may_claim k s bdev whole holder
unfolding bd_may_claim
bd_may_claim-congr k s t bdev whole holder p q = rw (p, q)

bd_may_claim-set_claiming :
    (k : Kernel) (s : Store) (bdev whole holder claimer : Ptr)
    → bd_may_claim k (set_claiming whole claimer s) bdev whole holder
      ≡ bd_may_claim k s bdev whole holder
unfolding bd_may_claim
bd_may_claim-set_claiming k s bdev whole holder claimer = ground arith

claim_retry-waits :
    (n : ℕ) (k : Kernel) (bdev whole holder : Ptr) (s : Store)
    → Undisturbed k bdev whole
    → s.bdev_lock ≡ false
    → bd_may_claim k s bdev whole holder ≡ true
    → (s.bdev whole).bd_claiming ≢ null
    → claim_retry n k bdev whole holder s ≡ waiting
unfolding claim_retry
claim_retry-waits zero k bdev whole holder s quiet free may busy = refl
claim_retry-waits (suc n) k bdev whole holder s quiet free may busy =
    let (free', same, same_whole) = quiet s free in
    rw (claim_retry-suc n k bdev whole holder s free, may, ==_of_ne _ _ busy)
      (claim_retry-waits n k bdev whole holder (k.schedule s) quiet free'
        (bd_may_claim-congr k s (k.schedule s) bdev whole holder same same_whole ∙ may)
        (rw same_whole busy))

-- `bd_abort_claiming` gives no claim back: after a claim that succeeds and its abort, a second
-- claim on the same disk that `bd_may_claim` would allow waits, for any number of rounds, as long
-- as no other task touches the two devices.
pub claim-abort-claim_hangs :
    (n : ℕ) (k : Kernel) (first second holder other : Ptr) (s : Store)
    → Undisturbed k second (k.bdev_whole first)
    → s.bdev_lock ≡ false
    → k.bdev_whole second ≡ k.bdev_whole first
    → holder ≢ null
    → other ≢ null
    → (s.bdev (k.bdev_whole first)).bd_claiming ≡ null
    → bd_may_claim k s first (k.bdev_whole first) holder ≡ true
    → bd_may_claim k s second (k.bdev_whole first) other ≡ true
    → and_then
        (bd_prepare_to_claim 1 k first holder s)
        (λ _. bd_abort_claiming first holder >> bd_prepare_to_claim n k second other)
      ≡ waiting
unfolding bd_abort_claiming
claim-abort-claim_hangs n k first second holder other s quiet free same hne one idle may may' =
    rw (bd_prepare_to_claim-idle 0 k first holder s free hne idle, may)
      (unfold bd_prepare_to_claim in
        rw (==_of_ne _ _ one, same)
          (claim_retry-waits n k second (k.bdev_whole first) other
            (set_claiming (k.bdev_whole first) holder s) quiet free
            (bd_may_claim-set_claiming k s second (k.bdev_whole first) other holder ∙ may')
            (ground arith)))
