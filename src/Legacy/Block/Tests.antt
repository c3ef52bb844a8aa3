-- ===== src/Legacy/Block/Tests.antt =====
-- A session of the earlier driver with a write and a flush, and the completion of the write.
use genode_imx.Base.{pos, ◌/◌, ◌≡◌, refl, true, false, Option, none, some, Ptr, null, List, [], ◌∷◌}
use genode_imx.SdCard.Store.{BlockDevice, Gendisk, Store}
use genode_imx.SdCard.Io.{
  write, sync, Request, submit_bio, ack_request, task_schedule, BlockApi, Io,
}
use genode_imx.SdCard.Bdevs.{zero_bdev}
use genode_imx.SdCard.Requests.{page_size, block_sync}
use genode_imx.Legacy.Block.{block_poll_turn, block_handle_session, serve, block_request, disk_bio}

abbrev Queue : Type 0
Queue = List Request

abbrev take_request : Queue → Option Request × Queue
take_request [] = (none, [])
take_request (r ∷ rs) = (some r, rs)

-- The only session has the address 9; every flush succeeds.
abbrev api : BlockApi Queue
api = record {
  session_by_name = λ n w. 9;
  request_by_session = λ s w. take_request w;
  issue_flush = λ b w. (pos 0, w);
  virt_to_page = λ p. p / page_size;
  perform = λ e w. w;
}

abbrev writing : Request
writing = record { addr_of = 21; op = write; blk_nr = 64; blk_cnt = 2; addr = 4096 }

abbrev flushing : Request
flushing = record { addr_of = 22; op = sync; blk_nr = 0; blk_cnt = 0; addr = 0 }

abbrev two_wait : Io Queue
two_wait = record { world = flushing ∷ writing ∷ []; events = [] }

abbrev card : Ptr → BlockDevice
card p = record zero_bdev { bd_disk = 5 }

abbrev disk : Ptr → Gendisk
disk p = record { disk_name = []; capacity = 100; read_only = false; part0 = 1; queue = null }

abbrev store : Store
store = record {
  bdev = λ p. zero_bdev;
  inode = λ p. record { i_mode = 0; i_rdev = 0 };
  gendisk = disk;
  bdevs = [];
  bdev_lock = false;
}

-- The write is in flight, with the disk that its device gave it.
polls_once :
    block_poll_turn api (λ p. 5) 3 disk (null ∷ 5 ∷ []) [] two_wait
    ≡ some (
      disk_bio api (λ p. 5) 1 writing true ∷ [],
      record {
        world = [];
        events =
            ack_request 9 22 true
            ∷ submit_bio (disk_bio api (λ p. 5) 1 writing true).bio
            ∷ task_schedule
            ∷ [];
      },
    )
unfolding block_poll_turn block_handle_session serve block_request block_sync
polls_once = refl
