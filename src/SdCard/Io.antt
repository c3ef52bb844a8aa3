-- ===== src/SdCard/Io.antt =====
-- What src/drivers/sd_card/lx_user.c exchanges with the block layer and with the Genode block
-- API: requests, bios, and the calls in the order in which they are made.
use genode_imx.Base.{ℕ, ℤ, Bool, Option, Ptr, Name, List, [], ◌∷◌, ◌++◌}

-- `genode_block_request.op`; the API has further operations.
pub data Op : Type 0 where
  read write sync : Op
  other : ℕ → Op

-- `struct genode_block_request` and its address.
pub record Request : Type 0 where
  pub addr_of : Ptr
  pub op : Op
  pub blk_nr : ℕ
  pub blk_cnt : ℕ
  pub addr : Ptr

pub data Direction : Type 0 where
  req_op_read req_op_write : Direction

-- `struct bio` with its one page; `bi_status` is the block layer's, 0 for success.
pub record Bio : Type 0 where
  pub bi_bdev : Ptr
  pub bi_sector : ℕ
  pub bi_opf : Direction
  pub bi_private : Ptr
  pub page : Ptr
  pub len : ℕ
  pub offset : ℕ
  pub bi_status : ℕ

pub data Event : Type 0 where
  submit_bio : Bio → Event
  ack_request : (session request : Ptr) → (success : Bool) → Event
  task_unblock : Ptr → Event
  task_schedule : Event
  bio_put : Bio → Event
  print_flush_failed : Event
  print_no_session : Event

-- The Genode block API and the Linux block layer over a world of their own. `perform` is what an
-- event does to that world.
pub record BlockApi (W : Type 0) : Type 0 where
  pub session_by_name : Name → W → Ptr
  pub request_by_session : Ptr → W → Option Request × W
  pub issue_flush : Ptr → W → ℤ × W
  pub virt_to_page : Ptr → Ptr
  pub perform : Event → W → W

-- The world, and the events so far, oldest first.
pub record Io (W : Type 0) : Type 0 where
  pub world : W
  pub events : List Event

module _ {W : Type 0} where
  abbrev pub emit : BlockApi W → Event → Io W → Io W
  emit api e io = record { world = api.perform e io.world; events = io.events ++ e ∷ [] }

  abbrev pub in_world : W → Io W → Io W
  in_world w io = record io { world = w }
