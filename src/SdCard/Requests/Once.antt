-- ===== src/SdCard/Requests/Once.antt =====
-- From the requests of a session to their acknowledgements: block_handle_session, and bio_end_io for
-- the bios that it has submitted.
use mathlib.Core.List.{Perm}
use mathlib.Core.List.Perm
use genode_imx.Base.{◌≢◌, Ptr, null, List, [], ◌∷◌}
use genode_imx.SdCard.Store.{BlockDevice, Gendisk}
use genode_imx.SdCard.Io.{
  Op, other, Request, Bio, Event, submit_bio, ack_request, task_unblock, task_schedule, bio_put,
  print_flush_failed, print_no_session, BlockApi, Io,
}
use genode_imx.SdCard.Requests.{bio_end_io}

-- The requests that were acknowledged.
pub acked : List Event → List Ptr
acked [] = []
acked (ack_request session request success ∷ es) = request ∷ acked es
acked (submit_bio b ∷ es) = acked es
acked (task_unblock t ∷ es) = acked es
acked (task_schedule ∷ es) = acked es
acked (bio_put b ∷ es) = acked es
acked (print_flush_failed ∷ es) = acked es
acked (print_no_session ∷ es) = acked es

-- The bios that were submitted.
pub submitted : List Event → List Bio
submitted [] = []
submitted (submit_bio b ∷ es) = b ∷ submitted es
submitted (ack_request session request success ∷ es) = submitted es
submitted (task_unblock t ∷ es) = submitted es
submitted (task_schedule ∷ es) = submitted es
submitted (bio_put b ∷ es) = submitted es
submitted (print_flush_failed ∷ es) = submitted es
submitted (print_no_session ∷ es) = submitted es

abbrev with_op : Op → Ptr → List Ptr → List Ptr
with_op (other n) p ps = ps
with_op o p ps = p ∷ ps

abbrev private_of : Bio → Ptr
private_of b = b.bi_private

module _ {W : Type 0} where
  -- The requests whose operation the driver knows.
  pub answerable : List (Request × W) → List Ptr
  answerable [] = []
  answerable ((r, w) ∷ rs) = with_op r.op r.addr_of (answerable rs)

module _ {W : Type 0} (api : BlockApi W) (bdev : Ptr → BlockDevice) (gendisk : Ptr → Gendisk)
    (task : Ptr) where
  -- These bios complete, one after the other.
  pub complete : List Bio → Io W → Io W
  complete [] io = io
  complete (b ∷ bs) io = complete bs (bio_end_io api bdev gendisk task b io)

  -- The session of every disk exists all the time.
  abbrev pub KeepsSessions : Type 0
  KeepsSessions =
      (p : Ptr) (w : W) → api.session_by_name (gendisk (bdev p).bd_disk).disk_name w ≢ null
