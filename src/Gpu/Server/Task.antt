-- ===== src/Gpu/Server/Task.antt =====
-- The task of a GPU session, `gpu_task_func` in src/drivers/gpu/imx8mq/main.cc. A fault is a C++
-- exception that leaves the task.
use genode_imx.Base.{
  ℕ, zero, suc, ℤ, pos, negsuc, ◌+◌, ◌%◌, ◌^◌, Bool, true, false, not, none, some, ◌==◌, ◌&&◌,
  if◌then◌else◌, is_nonzero, Ptr, null, List, [], ◌∷◌, ◌++◌, set,
}
use genode_imx.Base.Run.{Cmd, ok, fault, pure, get_state, modify, ◌>>=◌, ◌>>◌}
use genode_imx.Gpu.Abi.{Abi}
use genode_imx.Gpu.Ioctl.{write, lx_drm_gem_submit_bo_count, lx_drm_gem_submit_bo_handle}
use genode_imx.Gpu.Server.State.{
  OpType, invalid, alloc, free, map, unmap, exec, wait, Request, no_request, is_valid,
  lx_mapping_attrs, created, closed, flushed, notified, drm_closed, DrmCalls, Server, log,
  set_world, find, remove, managed, local_addr,
}

module _ {W : Type 0} (abi : Abi) (api : DrmCalls W) where
  abbrev fail : Request → Cmd (Server W) Request
  fail r = pure (record r { success = false })

  abbrev succeed : Request → Cmd (Server W) Request
  succeed r = pure (record r { success = true })

  -- `lx_drm_ioctl_gem_close`, whose result is never read.
  abbrev pub close_handle : ℕ → Cmd (Server W) (Unit {0})
  close_handle handle = do
    s ← get_state
    set_world (api.gem_close s.drm handle s.world)
    log (closed handle)

  -- `Buffer_space::insert`: attaching the dataspace may fail, and an id that is taken conflicts;
  -- either is an exception.
  unfoldable pub insert : (id handle cap : ℕ) → Cmd (Server W) (Unit {0})
  insert id handle cap s =
      let (place, w) = api.attach cap s.world in
      elim place [
        | none ↦ fault
        | some (addr, size) ↦
            if managed id s.buffers
            then fault
            else ok tt (record s {
              world = w;
              buffers =
                  (id, record { handle = handle; cap = cap; local_addr = addr; ds_size = size })
                  ∷ s.buffers;
            })
      ]

  -- `OP::ALLOC` once the kernel has made the object.
  unfoldable pub alloc_made : Request → (handle : ℕ) → Cmd (Server W) Request
  unfolding insert
  alloc_made r handle = do
    log (created handle)
    s ← get_state
    let (err, offset, w) = api.gem_info s.drm handle s.world
    set_world w
    if is_nonzero err then (do close_handle handle; fail r) else do
      t ← get_state
      let (cap, w') = api.lookup_cap t.drm offset r.size t.world
      set_world w'
      insert r.id handle cap
      succeed r

  -- `OP::ALLOC`
  unfoldable pub do_alloc : Request → Cmd (Server W) Request
  unfolding alloc_made
  do_alloc r = do
    s ← get_state
    let (err, handle, w) = api.gem_new s.drm r.size s.world
    set_world w
    if is_nonzero err then fail r else alloc_made r handle

  -- `OP::FREE`
  unfoldable pub do_free : Request → Cmd (Server W) Request
  do_free r s = elim (find r.id s.buffers) [
    | none ↦ fail r s
    | some b ↦
        (do
          close_handle b.handle
          modify (λ t. record t { buffers = remove r.id t.buffers })
          succeed r)
          s
  ]

  -- The loop of `OP::EXEC` over `rounds` objects from index `i` on, which replaces each id by the
  -- kernel's handle and writes the object's memory back from the cache.
  unfoldable pub translate : (rounds i : ℕ) → Ptr → Cmd (Server W) ℤ
  translate zero i submit s = ok (pos 0) s
  translate (suc n) i submit s =
      let place = lx_drm_gem_submit_bo_handle abi submit i s.mem in
      if place == null then ok (negsuc 0) s else elim (find (s.mem place) s.buffers) [
        | none ↦ ok (negsuc 0) s
        | some b ↦ translate n (i + 1) submit (record s {
          mem = write place b.handle s.mem;
          events = s.events ++ flushed b.local_addr b.ds_size ∷ [];
        })
      ]

  -- `OP::EXEC`
  unfoldable pub do_exec : Request → Cmd (Server W) Request
  unfolding translate
  do_exec r = do
    s ← get_state
    let submit = local_addr r.id s.buffers
    if submit == null then fail r else do
      err ← translate (lx_drm_gem_submit_bo_count abi submit s.mem) 0 submit
      if is_nonzero err then fail r else do
        t ← get_state
        let (err', fence, mem', w) = api.gem_submit t.drm submit t.mem t.world
        modify (λ u. record u { world = w; mem = mem' })
        (if is_nonzero err' then fail r else succeed (record r { seqno = fence }))

  -- `OP::WAIT`; the fence is the low 32 bits of the sequence number.
  unfoldable pub do_wait : Request → Cmd (Server W) Request
  do_wait r = do
    s ← get_state
    let (err, w) = api.wait_fence s.drm (r.seqno % 2 ^ 32) s.world
    set_world w
    log notified
    if is_nonzero err then fail r else succeed r

  -- `OP::MAP`
  unfoldable pub do_map : Request → Cmd (Server W) Request
  do_map r s = elim (find r.id s.buffers) [
    | none ↦ fail r s
    | some b ↦
        (do
          let (err, w) = api.cpu_prep s.drm b.handle (lx_mapping_attrs r) s.world
          set_world w
          log notified
          if is_nonzero err then fail r else succeed r)
          s
  ]

  -- `OP::UNMAP`
  unfoldable pub do_unmap : Request → Cmd (Server W) Request
  do_unmap r s = elim (find r.id s.buffers) [
    | none ↦ fail r s
    | some b ↦ (do set_world (api.cpu_fini s.drm b.handle s.world); succeed r) s
  ]

  -- The switch of `dispatch_pending`
  unfoldable pub dispatch : OpType → Request → Cmd (Server W) Request
  unfolding do_alloc do_free do_exec do_wait do_map do_unmap
  dispatch alloc r = do_alloc r
  dispatch free r = do_free r
  dispatch exec r = do_exec r
  dispatch wait r = do_wait r
  dispatch map r = do_map r
  dispatch unmap r = do_unmap r
  dispatch invalid r = fail r

  -- The rest of `with_pending_request` once the call does not block.
  abbrev pub finish : Cmd (Server W) (Unit {0})
  finish = do
    s ← get_state
    r ← dispatch s.pending.type s.pending
    modify (λ t. record t { completed = r; pending = no_request; blocked = false })

  -- The task from where it slept until it sleeps again: it takes the pending request, if it is not
  -- already inside the call for one, and goes on with the call unless that blocks.
  unfoldable pub run_task : Cmd (Server W) (Unit {0})
  unfolding dispatch
  run_task = do
    s ← get_state
    if not (s.linked && is_valid s.pending.type) then pure tt else do
      modify (λ t. record t { completed = if t.blocked then t.completed else no_request })
      (if api.blocks s.pending s.world then modify (λ t. record t { blocked = true }) else finish)

  -- `_populate_info` from the parameter `p` on; 0xff marks those that are not asked for. The
  -- parameters that were read before an error are kept.
  unfoldable pub populate_info : (params : List ℕ) → (p : ℕ) → List ℕ → Ptr → W → ℤ × List ℕ × W
  populate_info [] p info drm w = (pos 0, info, w)
  populate_info (q ∷ qs) p info drm w =
      let skip = populate_info qs (p + 1) info drm w in
      if q == 0xff
      then skip
      else let (err, value, w') = api.gem_param drm q w in
        elim (is_nonzero err) [
          | true ↦ (negsuc 0, info, w')
          | false ↦ populate_info qs (p + 1) (set info p value) drm w'
        ]

  -- A local request of type `OPEN`, whose success is the result: the error of `_populate_info` is
  -- not looked at.
  unfoldable pub open_drm : (params blank : List ℕ) → Cmd (Server W) Bool
  unfolding populate_info
  open_drm params blank s =
      if not (s.drm == null)
      then ok false s
      else let (drm, w) = api.drm_open s.world in
        if drm == null
        then ok false (record s { world = w })
        else let (err, info, w') = populate_info params 0 blank drm w in
          ok true (record s { drm = drm; info = info; world = w' })

  -- A local request of type `CLOSE`, after which the task ends itself.
  unfoldable pub close_drm : Cmd (Server W) Bool
  close_drm s =
      if s.drm == null
      then ok false s
      else ok true (record s {
        world = api.drm_close s.drm s.world;
        drm = null;
        events = s.events ++ drm_closed ∷ [];
      })
