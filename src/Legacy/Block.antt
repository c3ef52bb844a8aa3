-- ===== src/Legacy/Block.antt =====
-- src/drivers/sd_card_legacy/imx8mq/block.c. `bdev_alloc`, the bios and their completion differ
-- from src/drivers/sd_card/lx_user.c; the other functions have the same text as there.
-- The event of a submission shows what the bio shares with those there; the bios in flight are kept
-- with the rest.
mod Tests
use genode_imx.Base.{
  ℕ, zero, suc, ℤ, Bool, true, false, Option, none, some, ◌==◌, if◌then◌else◌, Ptr, null, List, [],
  ◌∷◌,
}
use genode_imx.Base.Run.{Cmd, pure, modify, ◌>>=◌, ◌>>◌}
use genode_imx.SdCard.Store.{BlockDevice, Gendisk, Store, Kernel, set_bdev}
use genode_imx.SdCard.Io.{
  Op, read, write, sync, other, Request, Bio, submit_bio, ack_request, task_schedule, bio_put,
  print_no_session, BlockApi, Io, emit, in_world,
}
use genode_imx.SdCard.Bdevs.{s_ifblk, deref, zero_bdev, set_inode}
use genode_imx.SdCard.Bdevs
use genode_imx.SdCard.Disks.{Disks}
use genode_imx.SdCard.Disks
use genode_imx.SdCard.Requests.{request_bio}
use genode_imx.SdCard.Requests

-- The new device's fields.
abbrev pub new_bdev : (inode stats disk : Ptr) → ℕ → BlockDevice
new_bdev inode stats disk partno = record zero_bdev {
  bd_disk = disk;
  bd_partno = partno;
  bd_inode = inode;
  bd_stats = stats;
}

-- `bdev_alloc`: no lock is taken, and the disk is not read.
pub bdev_alloc : (bdev inode stats disk : Ptr) → ℕ → Cmd Store Ptr
bdev_alloc bdev inode stats disk partno = do
  deref inode
  modify (set_inode inode (record { i_mode = s_ifblk; i_rdev = 0 }))
  deref bdev
  modify (set_bdev bdev (new_bdev inode stats disk partno))
  pure bdev

-- `bdev_add`
abbrev pub bdev_add : Kernel → Ptr → ℕ → Cmd Store (Unit {0})
bdev_add = Bdevs.bdev_add

-- `blkdev_get_by_dev`
abbrev pub blkdev_get_by_dev : Kernel → ℕ → Store → Ptr
blkdev_get_by_dev = Bdevs.blkdev_get_by_dev

-- `blk_register_queue`
abbrev pub blk_register_queue : (Ptr → Gendisk) → Ptr → Disks → ℤ × Disks
blk_register_queue = Disks.blk_register_queue

-- `blk_unregister_queue`
abbrev pub blk_unregister_queue : (Ptr → Gendisk) → Ptr → Disks → Disks
blk_unregister_queue = Disks.blk_unregister_queue

-- `struct bio` of this kernel names a disk, which `bio_set_dev` of Linux takes from the device,
-- and has the flag `BIO_WORKINGSET`.
pub record DiskBio : Type 0 where
  pub bio : Bio
  pub bi_disk : Ptr
  pub workingset : Bool

module _ {W : Type 0} (api : BlockApi W) (bio_set_dev : Ptr → Ptr) where
  -- `lx_user_handle_io`
  abbrev pub lx_user_handle_io : Ptr → Io W → Io W
  lx_user_handle_io = Requests.lx_user_handle_io api

  -- `bio_end_io`: the disk is the bio's.
  pub bio_end_io : (Ptr → Gendisk) → Ptr → DiskBio → Io W → Io W
  bio_end_io gendisk task b io =
      let session = api.session_by_name (gendisk b.bi_disk).disk_name io.world in
      emit api (bio_put b.bio) (
        if session == null
        then emit api print_no_session io
        else lx_user_handle_io task (emit api (ack_request session b.bio.bi_private true) io))

  -- `block_sync`
  abbrev pub block_sync : Ptr → Io W → Bool × Io W
  block_sync = Requests.block_sync api

  -- The bio that `block_request` fills.
  pub disk_bio : Ptr → Request → Bool → DiskBio
  disk_bio bdev r is_write = record {
    bio = request_bio api bdev r is_write;
    bi_disk = bio_set_dev bdev;
    workingset = true;
  }

  -- `block_request`; the block layer gets the bio, and `inflight` are the bios that it holds.
  pub block_request : Ptr → Request → Bool → List DiskBio → Io W → List DiskBio × Io W
  unfolding disk_bio
  block_request bdev r is_write inflight io =
      let b = disk_bio bdev r is_write in (b ∷ inflight, emit api (submit_bio b.bio) io)

  -- The switch of `block_handle_session`.
  pub serve : Ptr → Ptr → Request → Op → List DiskBio → Io W → List DiskBio × Io W
  serve session bdev r read bs io = block_request bdev r false bs io
  serve session bdev r write bs io = block_request bdev r true bs io
  serve session bdev r sync bs io =
      let (success, io') = block_sync bdev io in
      (bs, emit api (ack_request session r.addr_of success) io')
  serve session bdev r (other n) bs io = (bs, io)

  -- The loop of `block_handle_session`, for as many rounds as the first argument says.
  pub handle_requests : ℕ → Ptr → Ptr → List DiskBio → Io W → Option (List DiskBio × Io W)
  handle_requests zero session bdev bs io = none
  handle_requests (suc n) session bdev bs io =
      let (next, w) = api.request_by_session session io.world in
      elim next [
        | none ↦ some (bs, in_world w io)
        | some r ↦
            let (bs', io') = serve session bdev r r.op bs (in_world w io) in
            handle_requests n session bdev bs' io'
      ]

  -- `block_handle_session`
  pub block_handle_session : ℕ → Ptr → Gendisk → List DiskBio → Io W → Option (List DiskBio × Io W)
  unfolding handle_requests
  block_handle_session n session disk bs io =
      if session == null then some (bs, io) else handle_requests n session disk.part0 bs io

  -- The loop over `gendisks` in `block_poll_sessions`.
  pub poll_disks :
      ℕ → (Ptr → Gendisk) → List Ptr → List DiskBio → Io W → Option (List DiskBio × Io W)
  poll_disks n gendisk [] bs io = some (bs, io)
  poll_disks n gendisk (d ∷ ds) bs io =
      let skip = poll_disks n gendisk ds bs io in
      if d == null
      then skip
      else elim (block_handle_session n (api.session_by_name (gendisk d).disk_name io.world)
          (gendisk d) bs io) [ none ↦ none | some (bs', io') ↦ poll_disks n gendisk ds bs' io' ]

  -- One turn of the endless loop of `block_poll_sessions`, with the sleep that ends it.
  pub block_poll_turn :
      ℕ → (Ptr → Gendisk) → List Ptr → List DiskBio → Io W → Option (List DiskBio × Io W)
  unfolding poll_disks
  block_poll_turn n gendisk gendisks bs io = elim (poll_disks n gendisk gendisks bs io) [
    | none ↦ none
    | some (bs', io') ↦ some (bs', emit api task_schedule io')
  ]
