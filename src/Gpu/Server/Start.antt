-- ===== src/Gpu/Server/Start.antt =====
-- How a GPU session of src/drivers/gpu/imx8mq/main.cc begins: its task, which the `lx_user` task
-- creates, and the constructor.
use genode_imx.Base.{
  ℕ, Bool, true, false, Option, none, some, ◌==◌, if◌then◌else◌, Ptr, null, List, [], ◌∷◌,
  replicate,
}
use genode_imx.Base.Run.{Run, ok}
use genode_imx.Gpu.Abi.{Abi}
use genode_imx.Gpu.Server.State.{DrmCalls, Server}
use genode_imx.Gpu.Server.Task.{open_drm}

-- The table of `_populate_info`
abbrev pub params : List ℕ
params =
    0xff ∷ 0x01 ∷ 0x02 ∷ 0x03 ∷ 0x04 ∷ 0x05 ∷ 0x06 ∷ 0x07 ∷ 0x08 ∷ 0x09 ∷ 0x0a ∷ 0xff ∷ 0xff ∷ 0xff
    ∷ 0xff ∷ 0xff ∷ 0x10 ∷ 0x11 ∷ 0x12 ∷ 0x13 ∷ 0x14 ∷ 0x15 ∷ 0x16 ∷ 0x17 ∷ 0x18 ∷ 0x19 ∷ 0x1a
    ∷ 0x1b ∷ 0xff ∷ 0xff ∷ 0xff ∷ 0xff ∷ []

-- `Lx_user_task_args`
pub record TaskArgs : Type 0 where
  pub create_task : Bool
  pub args : Ptr
  pub new_gpu_task : Ptr

-- One turn of `lx_user_task_func`, over what `lx_user_new_gpu_task` makes of the arguments.
pub lx_user_task_turn : (Ptr → Ptr) → TaskArgs → TaskArgs
lx_user_task_turn new_gpu_task a =
    if a.create_task
    then record a { new_gpu_task = new_gpu_task a.args; create_task = false }
    else a

-- `create_gpu_task`; the scheduler lets the `lx_user` task take its turn, if that is not asleep
-- elsewhere, which the second argument tells.
pub create_gpu_task : (Ptr → Ptr) → (runs : Bool) → (args : Ptr) → TaskArgs → Ptr × TaskArgs
unfolding lx_user_task_turn
create_gpu_task new_gpu_task runs args a =
    if a.create_task
    then (null, a)
    else let asked = record a { args = args; create_task = true } in
      let b = if runs then lx_user_task_turn new_gpu_task asked else asked in (b.new_gpu_task, b)

module _ {W : Type 0} (abi : Abi) (api : DrmCalls W) where
  -- The constructor: the session's task, or none for the exception `Could_not_open_drm`, and the
  -- state after the request to open.
  pub construct :
      (Ptr → Ptr)
      → (runs : Bool) → (args : Ptr) → TaskArgs
      → Server W
      → Option Ptr × TaskArgs × Run (Server W) Bool
  unfolding create_gpu_task
  construct new_gpu_task runs args a s =
      let (task, b) = create_gpu_task new_gpu_task runs args a in
      if task == null
      then (none, b, ok false s)
      else let opened = open_drm abi api params (replicate 32 0) s in
        (elim opened [ ok done t ↦ if done then some task else none | _ ↦ none ], b, opened)
