-- ===== src/SdCard/Requests/Tests.antt =====
-- A session with a read, a flush that fails and an unknown request.
use genode_imx.Base.{
  negsuc, ◌/◌, ◌≡◌, ◌<◌, ◌≤◌, ◌↔◌, false, Option, none, some, Ptr, null, List, [], ◌∷◌, ◌++◌, arith,
  length,
}
use genode_imx.SdCard.Store.{BlockDevice, Gendisk}
use genode_imx.SdCard.Io.{
  read, sync, other, Request, Bio, req_op_read, Event, submit_bio, ack_request, task_schedule,
  print_flush_failed, BlockApi, Io, emit,
}
use genode_imx.SdCard.Requests.{page_size, handle_requests, block_poll_turn}
use genode_imx.SdCard.Requests.Served.{Drained, Answers, handle_requests_lem}
use genode_imx.SdCard.Requests.Once.{submitted}
use genode_imx.SdCard.Requests.Rounds.{IsFinite, Polled, block_poll_turn-returns}

abbrev Queue : Type 0
Queue = List Request

-- The world is the queue of the only session, which has the address 9; every flush fails.
abbrev take_request : Queue → Option Request × Queue
take_request [] = (none, [])
take_request (r ∷ rs) = (some r, rs)

abbrev api : BlockApi Queue
api = record {
  session_by_name = λ n w. 9;
  request_by_session = λ s w. take_request w;
  issue_flush = λ b w. (negsuc 4, w);
  virt_to_page = λ p. p / page_size;
  perform = λ e w. w;
}

abbrev reading : Request
reading = record { addr_of = 21; op = read; blk_nr = 40; blk_cnt = 8; addr = 8192 }

abbrev flushing : Request
flushing = record { addr_of = 22; op = sync; blk_nr = 0; blk_cnt = 0; addr = 0 }

abbrev trimming : Request
trimming = record { addr_of = 23; op = other 4; blk_nr = 0; blk_cnt = 0; addr = 0 }

abbrev waiting_three : Io Queue
waiting_three = record { world = reading ∷ flushing ∷ trimming ∷ []; events = [] }

abbrev read_bio : Bio
read_bio = record {
  bi_bdev = 1;
  bi_sector = 40;
  bi_opf = req_op_read;
  bi_private = 21;
  page = 2;
  len = 4096;
  offset = 0;
  bi_status = 0;
}

abbrev drained : Io Queue
drained = record {
  world = [];
  events = submit_bio read_bio ∷ print_flush_failed ∷ ack_request 9 22 false ∷ [];
}

handle_requests_lem_example : (handle_requests api 4 9 1 waiting_three ≡ some drained) ↔ (
    (rs : List (Request × Queue)) × Drained api 9 1 waiting_three rs drained
    × (length rs < 4)
    × ((es : List Event) × (drained.events ≡ waiting_three.events ++ es) × Answers api 9 1 rs es))
handle_requests_lem_example = handle_requests_lem api 9 1 4 waiting_three drained

abbrev device : Ptr → BlockDevice
device p = record {
  bd_disk = 5;
  bd_partno = 0;
  bd_dev = 0;
  bd_inode = 6;
  bd_queue = null;
  bd_stats = null;
  bd_holder = null;
  bd_claiming = null;
}

abbrev disk : Ptr → Gendisk
disk p = record { disk_name = []; capacity = 100; read_only = false; part0 = 1; queue = null }

taken_one :
    (session : Ptr) (w w' : Queue) (r : Request)
    → take_request w ≡ (some r, w')
    → length w' < length w
taken_one session [] w' r e = absurd (ground arith)
taken_one session (q ∷ w) w' r e = let same : w ≡ w' = cc in rw (← same) (omega arith)

asked_in_vain : (session : Ptr) (w w' : Queue) → take_request w ≡ (none, w') → length w' ≤ length w
asked_in_vain session [] w' e = let same : ◌≡◌ {A = Queue} [] w' = cc in rw (← same) (omega arith)
asked_in_vain session (q ∷ w) w' e = absurd (ground arith)

api-IsFinite : IsFinite api length
api-IsFinite = record {
  taken = taken_one;
  asked = asked_in_vain;
  flushed = λ b w. omega arith;
  submitted = λ b w. omega arith;
  acknowledged = λ s r b w. omega arith;
  printed = λ w. omega arith;
}

block_poll_turn-returns_example :
    (mid : Io Queue) × Polled api length api-IsFinite disk (5 ∷ null ∷ []) waiting_three mid
    × (block_poll_turn api 4 disk (5 ∷ null ∷ []) waiting_three ≡ some (emit api task_schedule mid))
block_poll_turn-returns_example =
    block_poll_turn-returns api length api-IsFinite 4 disk (5 ∷ null ∷ []) waiting_three
      (omega arith)
