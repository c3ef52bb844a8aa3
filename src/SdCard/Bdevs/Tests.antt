-- ===== src/SdCard/Bdevs/Tests.antt =====
-- The device table with two devices of the same major number.
use genode_imx.Base.{
  ℕ, zero, suc, ◌/◌, ◌%◌, ◌^◌, ◌+◌, ◌*◌, ◌≡◌, ◌≢◌, refl, false, null, [], arith, replicate,
  length-replicate, get_or,
}
use genode_imx.Base.Run.{ok}
use genode_imx.SdCard.Store.{Store, Kernel}
use genode_imx.SdCard.Bdevs.{max_bdev, zero_bdev, bdev_add, blkdev_get_by_dev}
use genode_imx.SdCard.Bdevs.Lookup.{added, IsTable, bdev_add-IsTable}

abbrev store : Store
store = record {
  bdev = λ p. zero_bdev;
  inode = λ p. record { i_mode = 0; i_rdev = 0 };
  gendisk = λ p. record { disk_name = []; capacity = 8; read_only = false; part0 = 1; queue = 4 };
  bdevs = replicate max_bdev null;
  bdev_lock = false;
}

abbrev linux : Kernel
linux = record {
  major = λ d. d / 2 ^ 20;
  minor = λ d. d % 2 ^ 20;
  bdev_whole = λ p. 1;
  bd_may_claim_addr = 99;
  schedule = λ s. s;
}

-- The first two cards of the MMC driver, major number 179.
abbrev card : ℕ
card = 179 * 2 ^ 20

abbrev second_card : ℕ
second_card = 179 * 2 ^ 20 + 8

second_card_found :
    blkdev_get_by_dev linux card (added linux 12 second_card (added linux 11 card store)) ≡ 12
unfolding blkdev_get_by_dev
second_card_found = refl

get_or-replicate : (n i : ℕ) → get_or (replicate n null) i null ≡ null
get_or-replicate zero i = refl
get_or-replicate (suc n) zero = refl
get_or-replicate (suc n) (suc i) = get_or-replicate n i

empty-IsTable : IsTable linux store
empty-IsTable = record {
  size = length-replicate max_bdev null;
  matches = λ i found. absurd (found (get_or-replicate max_bdev i));
}

one_card : Store
one_card = added linux 11 card store

one_card-run : bdev_add linux 11 card store ≡ ok tt one_card
unfolding bdev_add one_card
one_card-run = refl

one_card-found : blkdev_get_by_dev linux card one_card ≢ null
unfolding blkdev_get_by_dev one_card
one_card-found = omega arith

one_card-IsTable : IsTable linux one_card
one_card-IsTable =
    bdev_add-IsTable linux 11 card store one_card empty-IsTable
      (λ i e. absurd (omega (arith, get_or-replicate max_bdev i))) one_card-run
