-- ===== src/SdCard/Requests/Bios.antt =====
-- One read or write, from the request to its acknowledgement.
use genode_imx.Base.{
  ℕ, ◌+◌, ◌*◌, ◌%◌, ◌^◌, ◌≡◌, ◌<◌, ◌≢◌, Bool, true, ◌==◌, if◌then◌else◌, ==_of_ne, Bool-cases, inl,
  inr, refl, ap, ◌∙◌, Ptr, null, [], ◌∷◌, ◌++◌, append_assoc, arith,
}
use genode_imx.SdCard.Store.{BlockDevice, Gendisk}
use genode_imx.SdCard.Io.{
  Request, Bio, req_op_read, req_op_write, submit_bio, ack_request, task_unblock, bio_put,
  print_no_session, BlockApi, Io,
}
use genode_imx.SdCard.Requests.{
  page_size, lx_user_handle_io, bio_end_io, request_bio, block_request,
}

module _ {W : Type 0} (api : BlockApi W) where
  -- `block_request` submits one bio that starts at the request's sector, goes in the direction
  -- asked for, names the request, and covers 512 bytes for each of the request's sectors from the
  -- request's address on, where the page of the address begins `page_size` bytes aligned below it
  -- and the request is shorter than 2^32 bytes.
  pub block_request_lem :
      (bdev : Ptr) (r : Request) (is_write : Bool) (io : Io W) (page_addr : Ptr → Ptr)
      → r.blk_cnt < 2 ^ 23
      → page_addr (api.virt_to_page r.addr) + r.addr % page_size ≡ r.addr
      → (b : Bio) × ((block_request api bdev r is_write io).events ≡ io.events ++ submit_bio b ∷ [])
        × (b.bi_bdev ≡ bdev)
        × (b.bi_sector ≡ r.blk_nr)
        × (b.bi_opf ≡ (if is_write then req_op_write else req_op_read))
        × (b.bi_private ≡ r.addr_of)
        × (b.len ≡ r.blk_cnt * 512)
        × (page_addr b.page + b.offset ≡ r.addr)
        × (b.offset < page_size)
  unfolding block_request request_bio
  block_request_lem bdev r is_write io page_addr small base = (
    request_bio api bdev r is_write,
    refl,
    refl,
    refl,
    refl,
    refl,
    omega arith,
    base,
    omega arith,
  )

  module _ (bdev : Ptr → BlockDevice) (gendisk : Ptr → Gendisk) (task : Ptr) where
    pub bio_end_io-live :
        (bio : Bio) (io : Io W)
        → let session =
            api.session_by_name (gendisk (bdev bio.bi_bdev).bd_disk).disk_name io.world in
          session ≢ null
          → (bio_end_io api bdev gendisk task bio io).events
            ≡ io.events
              ++ ack_request session bio.bi_private true
                ∷ ((if task == null then [] else task_unblock task ∷ []) ++ bio_put bio ∷ [])
    unfolding bio_end_io lx_user_handle_io
    bio_end_io-live bio io live =
        let session = api.session_by_name (gendisk (bdev bio.bi_bdev).bd_disk).disk_name io.world in
        let ack = ack_request session bio.bi_private true in
        rw (==_of_ne session null live) (elim (Bool-cases (task == null)) [
          | inl none_yet ↦ rw none_yet (append_assoc io.events (ack ∷ []) (bio_put bio ∷ []))
          | inr polling ↦ rw polling (
              ap (λ l. l ++ bio_put bio ∷ [])
                (append_assoc io.events (ack ∷ []) (task_unblock task ∷ []))
              ∙ append_assoc io.events (ack ∷ task_unblock task ∷ []) (bio_put bio ∷ []))
        ])

    -- When the bio of a request completes while the session of its disk exists, `bio_end_io`
    -- acknowledges that very request to the session as a success, wakes the polling task if there
    -- is one, and drops the bio: whatever status the block layer has left in the bio.
    pub bio_end_io-request_bio :
        (dev : Ptr) (r : Request) (is_write : Bool) (status : ℕ) (io : Io W)
        → let session = api.session_by_name (gendisk (bdev dev).bd_disk).disk_name io.world in
          let bio = record (request_bio api dev r is_write) { bi_status = status } in
          session ≢ null
          → (bio_end_io api bdev gendisk task bio io).events
            ≡ io.events
              ++ ack_request session r.addr_of true
                ∷ ((if task == null then [] else task_unblock task ∷ []) ++ bio_put bio ∷ [])
    unfolding request_bio
    bio_end_io-request_bio dev r is_write status io live =
        bio_end_io-live (record (request_bio api dev r is_write) { bi_status = status }) io live

    -- When the session is gone, nothing is acknowledged and the bio is dropped all the same.
    pub bio_end_io-orphan :
        (bio : Bio) (io : Io W)
        → api.session_by_name (gendisk (bdev bio.bi_bdev).bd_disk).disk_name io.world ≡ null
        → (bio_end_io api bdev gendisk task bio io).events
          ≡ io.events ++ print_no_session ∷ bio_put bio ∷ []
    unfolding bio_end_io
    bio_end_io-orphan bio io gone =
        ground (arith, append_assoc io.events (print_no_session ∷ []) (bio_put bio ∷ []))
