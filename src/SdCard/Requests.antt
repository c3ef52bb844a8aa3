-- ===== src/SdCard/Requests.antt =====
-- Requests of src/drivers/sd_card/lx_user.c: from a block session to a bio and back, and the task
-- that polls all sessions.
pub mod Served
pub mod Bios
pub mod Rounds
pub mod Once
mod Tests
use genode_imx.Base.{
  ℕ, zero, suc, ◌*◌, ◌%◌, ◌^◌, Bool, true, false, not, Option, none, some, ◌==◌, if◌then◌else◌,
  is_nonzero, Ptr, null, List, [], ◌∷◌,
}
use genode_imx.SdCard.Store.{BlockDevice, Gendisk}
use genode_imx.SdCard.Io.{
  Op, read, write, sync, other, Request, Direction, req_op_read, req_op_write, Bio, submit_bio,
  ack_request, task_unblock, task_schedule, bio_put, print_flush_failed, print_no_session, BlockApi,
  Io, emit, in_world,
}

-- `PAGE_SIZE`
abbrev pub page_size : ℕ
page_size = 4096

module _ {W : Type 0} (api : BlockApi W) where
  -- `lx_user_handle_io`, over the static `lx_user_task`
  pub lx_user_handle_io : Ptr → Io W → Io W
  lx_user_handle_io task io = if task == null then io else emit api (task_unblock task) io

  -- `bio_end_io`; the memory gives the disk of a block device.
  unfoldable pub bio_end_io : (Ptr → BlockDevice) → (Ptr → Gendisk) → Ptr → Bio → Io W → Io W
  unfolding lx_user_handle_io
  bio_end_io bdev gendisk task bio io =
      let session = api.session_by_name (gendisk (bdev bio.bi_bdev).bd_disk).disk_name io.world in
      emit api (bio_put bio) (
        if session == null
        then emit api print_no_session io
        else lx_user_handle_io task (emit api (ack_request session bio.bi_private true) io))

  -- `block_sync`
  unfoldable pub block_sync : Ptr → Io W → Bool × Io W
  block_sync bdev io =
      let (err, w) = api.issue_flush bdev io.world in
      if is_nonzero err
      then (false, emit api print_flush_failed (in_world w io))
      else (true, in_world w io)

  -- The bio that `block_request` fills; `bio_add_page` takes its length as an unsigned int.
  unfoldable pub request_bio : Ptr → Request → Bool → Bio
  request_bio bdev r is_write = record {
    bi_bdev = bdev;
    bi_sector = r.blk_nr;
    bi_opf = if is_write then req_op_write else req_op_read;
    bi_private = r.addr_of;
    page = api.virt_to_page r.addr;
    len = (r.blk_cnt * 512) % 2 ^ 32;
    offset = r.addr % page_size;
    bi_status = 0;
  }

  -- `block_request`
  unfoldable pub block_request : Ptr → Request → Bool → Io W → Io W
  unfolding request_bio
  block_request bdev r is_write io = emit api (submit_bio (request_bio bdev r is_write)) io

  -- The switch of `block_handle_session`.
  unfoldable pub serve : Ptr → Ptr → Request → Op → Io W → Io W
  serve session bdev r read io = block_request bdev r false io
  serve session bdev r write io = block_request bdev r true io
  serve session bdev r sync io =
      let (success, io') = block_sync bdev io in
      emit api (ack_request session r.addr_of success) io'
  serve session bdev r (other n) io = io

  -- The loop of `block_handle_session`, for as many rounds as the first argument says.
  unfoldable pub handle_requests : ℕ → Ptr → Ptr → Io W → Option (Io W)
  handle_requests zero session bdev io = none
  handle_requests (suc n) session bdev io =
      let (next, w) = api.request_by_session session io.world in
      elim next [
        | none ↦ some (in_world w io)
        | some r ↦ handle_requests n session bdev (serve session bdev r r.op (in_world w io))
      ]

  -- `block_handle_session`
  unfoldable pub block_handle_session : ℕ → Ptr → Gendisk → Io W → Option (Io W)
  unfolding handle_requests
  block_handle_session n session disk io =
      if session == null then some io else handle_requests n session disk.part0 io

  -- The loop over `gendisks` in `block_poll_sessions`; each session gets the same rounds.
  unfoldable pub poll_disks : ℕ → (Ptr → Gendisk) → List Ptr → Io W → Option (Io W)
  poll_disks n gendisk [] io = some io
  poll_disks n gendisk (d ∷ ds) io =
      let skip = poll_disks n gendisk ds io in
      if d == null
      then skip
      else elim (block_handle_session n (api.session_by_name (gendisk d).disk_name io.world)
          (gendisk d) io) [ none ↦ none | some io' ↦ poll_disks n gendisk ds io' ]

  -- One turn of the endless loop of `block_poll_sessions`, with the sleep that ends it.
  unfoldable pub block_poll_turn : ℕ → (Ptr → Gendisk) → List Ptr → Io W → Option (Io W)
  unfolding poll_disks
  block_poll_turn n gendisk gendisks io = elim (poll_disks n gendisk gendisks io) [
    | none ↦ none
    | some io' ↦ some (emit api task_schedule io')
  ]
