-- ===== src/Gpu/Server/Rpc.antt =====
-- The calls of a client on a GPU session, `Session_component` of src/drivers/gpu/imx8mq/main.cc.
use genode_imx.Base.{
  ℕ, zero, suc, ◌+◌, ◌-◌, ◌%◌, ◌^◌, Bool, true, false, not, Option, none, some, ltb, ◌&&◌,
  if◌then◌else◌, List, [], ◌∷◌,
}
use genode_imx.Base.Run.{Cmd, ok, fault, waiting, pure, get_state, modify, ◌>>=◌, ◌>>◌}
use genode_imx.Gpu.Abi.{Abi}
use genode_imx.Gpu.Server.State.{
  OpType, alloc, free, map, unmap, exec, wait, Request, no_request, is_valid, Buffer, DrmCalls,
  Server, managed, lookup_buffer,
}
use genode_imx.Gpu.Server.Task.{run_task, close_drm}

abbrev pub is_map : OpType → Bool
is_map map = true
is_map t = false

module _ {W : Type 0} (abi : Abi) (api : DrmCalls W) where
  -- `Request::create`, which counts its calls in an unsigned long.
  unfoldable pub create : OpType → Cmd (Server W) Request
  create type = do
    modify (λ s. record s { tag_counter = (s.tag_counter + 1) % 2 ^ 64 })
    s ← get_state
    pure (record no_request { type = type; readable = true; tag = s.tag_counter })

  -- `_managed_id`
  unfoldable pub managed_id : OpType → ℕ → List (ℕ × Buffer) → Bool
  managed_id free id bs = managed id bs
  managed_id map id bs = managed id bs
  managed_id unmap id bs = managed id bs
  managed_id exec id bs = managed id bs
  managed_id t id bs = true

  -- `_schedule_request`: the completed request for its function of success, or none for that of
  -- failure.
  unfoldable pub schedule_request : Request → Cmd (Server W) (Option Request)
  unfolding managed_id run_task
  schedule_request r = do
    s ← get_state
    if is_valid s.pending.type
        then pure none
        else if not (managed_id r.type r.id s.buffers)
        then pure none
        else do
          modify (λ t. record t { pending = r; linked = true })
          run_task abi api
          t ← get_state
          pure (if t.completed.success then some t.completed else none)

  -- `execute`; none is the exception `Invalid_state`.
  unfoldable pub execute : (id : ℕ) → Cmd (Server W) (Option ℕ)
  unfolding create schedule_request
  execute id = do
    r ← create exec
    done ← schedule_request (record r { id = id })
    pure (elim done [ none ↦ none | some q ↦ some q.seqno ])

  -- `complete`
  unfoldable pub complete : (seqno : ℕ) → Cmd (Server W) Bool
  unfolding create schedule_request
  complete seqno = do
    r ← create wait
    done ← schedule_request (record r { seqno = seqno })
    pure (elim done [ none ↦ false | some q ↦ q.success ])

  -- The capability of the completed request's buffer, or the invalid one.
  abbrev pub cap_of : Option Request → Cmd (Server W) ℕ
  cap_of none = pure 0
  cap_of (some q) = do s ← get_state; pure (lookup_buffer q.id s.buffers)

  -- `alloc_vram`
  unfoldable pub alloc_vram : (id size : ℕ) → Cmd (Server W) ℕ
  unfolding create schedule_request
  alloc_vram id size = if ltb (2 ^ 32 - 1) size then pure 0 else do
    r ← create alloc
    done ← schedule_request (record r { id = id; size = size })
    cap_of done

  -- `free_vram`
  unfoldable pub free_vram : (id : ℕ) → Cmd (Server W) (Unit {0})
  unfolding create schedule_request
  free_vram id = do r ← create free; done ← schedule_request (record r { id = id }); pure tt

  -- `map_cpu` from the new request on.
  unfoldable pub map_new : (id : ℕ) → (readable writeable : Bool) → Cmd (Server W) ℕ
  unfolding create schedule_request
  map_new id readable writeable = do
    r ← create map
    done ← schedule_request (record r { id = id; readable = readable; writeable = writeable })
    modify (λ s. elim done [ none ↦ record s { pending_map = true } | some q ↦ s ])
    cap_of done

  -- `map_cpu`, which first looks whether an earlier call was interrupted.
  unfoldable pub map_cpu : (id : ℕ) → (readable writeable : Bool) → Cmd (Server W) ℕ
  unfolding map_new
  map_cpu id readable writeable = do
    s ← get_state
    if s.pending_map && (s.linked && is_map s.pending.type)
        then pure 0
        else if s.pending_map && (s.linked && is_map s.completed.type)
        then (do
          modify (λ t. record t { pending_map = false })
          pure (lookup_buffer s.completed.id s.buffers))
        else map_new id readable writeable

  -- `unmap_cpu`
  unfoldable pub unmap_cpu : (id : ℕ) → Cmd (Server W) (Unit {0})
  unfolding create schedule_request
  unmap_cpu id = do r ← create unmap; done ← schedule_request (record r { id = id }); pure tt

  -- `_local_request` of type `CLOSE`. A task that sleeps inside a call goes on with that call, and
  -- does not come to the local request.
  unfoldable pub local_close : Cmd (Server W) Bool
  unfolding run_task close_drm
  local_close = do
    s ← get_state
    if s.blocked then (do run_task abi api; pure false) else close_drm abi api

  -- `_free_buffers` with the loop of `any_by_id`, for as many rounds as the second argument says.
  -- Which of the buffers `apply_any` takes is a matter of the id space: `any` gives its id.
  unfoldable pub free_buffers : (any : List (ℕ × Buffer) → ℕ) → ℕ → Cmd (Server W) (Unit {0})
  free_buffers any zero s = waiting
  free_buffers any (suc n) s = elim s.buffers [
    | [] ↦ ok tt s
    | b ∷ bs ↦ (do free_vram (any (b ∷ bs)); free_buffers any n) s
  ]

  -- The destructor: whether the DRM session was closed. The task's pointer to the pending request
  -- is NULL as long as nothing was scheduled.
  unfoldable pub destroy : (any : List (ℕ × Buffer) → ℕ) → ℕ → Cmd (Server W) Bool
  unfolding free_buffers local_close
  destroy any n = do
    s ← get_state
    if not s.linked then (λ t. fault) else do free_buffers any n; local_close

  -- `Main::_handle_signal`: the scheduler lets the task go on.
  unfoldable pub handle_signal : Cmd (Server W) (Unit {0})
  unfolding run_task
  handle_signal = do s ← get_state; if s.blocked then run_task abi api else pure tt
