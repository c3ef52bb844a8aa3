-- ===== src/SdCard/Claim/Tests.antt =====
-- Claims on a disk at address 1 with a partition at 2, by holders at 7 and 8.
use genode_imx.Base.{◌/◌, ◌%◌, ◌^◌, ◌≡◌, ◌≢◌, refl, false, null, [], arith}
use genode_imx.Base.Run.{ok, waiting, and_then, ◌>>◌}
use genode_imx.SdCard.Store.{BlockDevice, Gendisk, Store, Kernel, spin_lock, spin_unlock}
use genode_imx.SdCard.Claim.{
  einval, bd_may_claim, set_claiming, claim_retry, bd_prepare_to_claim, bd_abort_claiming,
}
use genode_imx.SdCard.Claim.Rules.{Claimed, bd_prepare_to_claim-Claimed}
use genode_imx.SdCard.Claim.Hang.{claim-abort-claim_hangs}

abbrev idle_device : BlockDevice
idle_device = record {
  bd_disk = 5;
  bd_partno = 0;
  bd_dev = 0;
  bd_inode = 6;
  bd_queue = null;
  bd_stats = null;
  bd_holder = null;
  bd_claiming = null;
}

abbrev disk : Gendisk
disk = record { disk_name = []; capacity = 8; read_only = false; part0 = 1; queue = null }

abbrev store : Store
store = record {
  bdev = λ p. idle_device;
  inode = λ p. record { i_mode = 0; i_rdev = 0 };
  gendisk = λ p. disk;
  bdevs = [];
  bdev_lock = false;
}

-- Nobody else runs.
abbrev alone : Kernel
alone = record {
  major = λ d. d / 2 ^ 20;
  minor = λ d. d % 2 ^ 20;
  bdev_whole = λ p. 1;
  bd_may_claim_addr = 99;
  schedule = λ s. s;
}

-- Whoever claims the disk is done by the time that the sleeper wakes up.
abbrev helpful : Kernel
helpful = record alone { schedule = λ s. set_claiming 1 null s }

abbrev claimed_store : Store
claimed_store = set_claiming 1 7 store

second_claim_waits : bd_prepare_to_claim 5 alone 2 8 claimed_store ≡ waiting
unfolding bd_prepare_to_claim claim_retry bd_may_claim spin_lock spin_unlock
second_claim_waits = refl

-- The second holder finds the disk claimed, sleeps once, and has it then.
bd_prepare_to_claim-Claimed_example :
    ((8 ≡ null) → bd_prepare_to_claim 3 helpful 2 8 claimed_store ≡ ok einval claimed_store)
    × ((8 ≢ null)
        → Claimed 3 helpful 2 1 8 claimed_store (bd_prepare_to_claim 3 helpful 2 8 claimed_store))
bd_prepare_to_claim-Claimed_example =
    bd_prepare_to_claim-Claimed 3 helpful 2 8 claimed_store (λ s free. free) refl

claim-abort-claim_hangs_example :
    and_then
      (bd_prepare_to_claim 1 alone 1 7 store)
      (λ _. bd_abort_claiming 1 7 >> bd_prepare_to_claim 100 alone 2 8)
    ≡ waiting
unfolding bd_may_claim
claim-abort-claim_hangs_example =
    claim-abort-claim_hangs 100 alone 1 2 7 8 store (λ s free. (free, refl, refl)) refl refl
      (omega arith) (omega arith) refl refl refl
