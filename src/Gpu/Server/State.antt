-- ===== src/Gpu/Server/State.antt =====
-- The state of a GPU session in src/drivers/gpu/imx8mq/main.cc, and what its task calls.
use genode_imx.Base.{
  ℕ, ℤ, Bool, true, false, Option, none, some, ◌==◌, if◌then◌else◌, Ptr, null, List, [], ◌∷◌, ◌++◌,
}
use genode_imx.Base.Run.{Cmd, modify}
use genode_imx.Gpu.Ioctl.{Memory}

-- `Operation::Type`
pub data OpType : Type 0 where
  invalid alloc free map unmap exec wait : OpType

-- `Operation` and `Request`. The fields `gpu_vaddr`, `mode` and `session` are never read.
pub record Request : Type 0 where
  pub type : OpType
  pub id : ℕ
  pub size : ℕ
  pub seqno : ℕ
  pub readable : Bool
  pub writeable : Bool
  pub success : Bool
  pub tag : ℕ

-- `Gpu::Request()`
abbrev pub no_request : Request
no_request = record {
  type = invalid;
  id = 0;
  size = 0;
  seqno = 0;
  readable = false;
  writeable = false;
  success = false;
  tag = 0;
}

-- `Operation::valid`
abbrev pub is_valid : OpType → Bool
is_valid invalid = false
is_valid t = true

-- `Operation::lx_mapping_attrs`
abbrev pub lx_mapping_attrs : Request → ℕ
lx_mapping_attrs r = if r.readable then 1 else if r.writeable then 2 else 0

-- `Gpu::Buffer`, with the local address and the size of its attached dataspace; a capability is a
-- number, 0 the invalid one.
pub record Buffer : Type 0 where
  pub handle : ℕ
  pub cap : ℕ
  pub local_addr : Ptr
  pub ds_size : ℕ

-- What the session makes others do or know, in order.
pub data Event : Type 0 where
  created closed : (handle : ℕ) → Event
  flushed : (addr : Ptr) → (size : ℕ) → Event
  notified : Event
  drm_closed : Event

-- The functions of lx_emul.c and of Genode that the task calls, over a world of their own: each
-- gives an error, 0 for none, and what it writes through its pointer. `attach` gives the local
-- address and the size of a dataspace, or fails. `blocks` tells whether the wait that a request
-- asks for would block the task in the kernel.
pub record DrmCalls (W : Type 0) : Type 0 where
  pub drm_open : W → Ptr × W
  pub drm_close : Ptr → W → W
  pub gem_param : Ptr → ℕ → W → ℤ × ℕ × W
  pub gem_new : Ptr → ℕ → W → ℤ × ℕ × W
  pub gem_info : Ptr → ℕ → W → ℤ × ℕ × W
  pub gem_close : Ptr → ℕ → W → W
  pub gem_submit : Ptr → Ptr → Memory → W → ℤ × ℕ × Memory × W
  pub wait_fence : Ptr → ℕ → W → ℤ × W
  pub cpu_prep : Ptr → ℕ → ℕ → W → ℤ × W
  pub cpu_fini : Ptr → ℕ → W → W
  pub lookup_cap : Ptr → ℕ → ℕ → W → ℕ × W
  pub attach : ℕ → W → Option (Ptr × ℕ) × W
  pub blocks : Request → W → Bool

-- The session's and its task's fields. `linked` tells whether the task's pointers to the two
-- requests are set, and `blocked` whether the task sleeps inside the call for the pending request.
-- `tag_counter` is the static variable of `Request::create`, which all sessions count up.
pub record Server (W : Type 0) : Type 0 where
  pub world : W
  pub drm : Ptr
  pub info : List ℕ
  pub buffers : List (ℕ × Buffer)
  pub mem : Memory
  pub pending : Request
  pub completed : Request
  pub linked : Bool
  pub blocked : Bool
  pub pending_map : Bool
  pub tag_counter : ℕ
  pub events : List Event

module _ {W : Type 0} where
  abbrev pub log : Event → Cmd (Server W) (Unit {0})
  log e = modify (λ s. record s { events = s.events ++ e ∷ [] })

  abbrev pub set_world : W → Cmd (Server W) (Unit {0})
  set_world w = modify (λ s. record s { world = w })

-- `Buffer_space`, an id space of buffers. A function applied to an id that is not there is not
-- called.
unfoldable pub find : ℕ → List (ℕ × Buffer) → Option Buffer
find id [] = none
find id ((j, b) ∷ bs) = if j == id then some b else find id bs

-- `Buffer_space::remove`
unfoldable pub remove : ℕ → List (ℕ × Buffer) → List (ℕ × Buffer)
remove id [] = []
remove id ((j, b) ∷ bs) = if j == id then bs else (j, b) ∷ remove id bs

-- `Buffer_space::managed`
abbrev pub managed : ℕ → List (ℕ × Buffer) → Bool
managed id bs = elim (find id bs) [ none ↦ false | some b ↦ true ]

-- `Buffer_space::lookup_buffer`
abbrev pub lookup_buffer : ℕ → List (ℕ × Buffer) → ℕ
lookup_buffer id bs = elim (find id bs) [ none ↦ 0 | some b ↦ b.cap ]

-- `Buffer_space::local_addr`
abbrev pub local_addr : ℕ → List (ℕ × Buffer) → Ptr
local_addr id bs = elim (find id bs) [ none ↦ null | some b ↦ b.local_addr ]
