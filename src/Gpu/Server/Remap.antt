-- ===== src/Gpu/Server/Remap.antt =====
-- What `map_cpu` answers after a call that failed.
use genode_imx.Base.{
  ℕ, ◌+◌, ◌%◌, ◌^◌, ◌≡◌, Bool, true, false, some, is_nonzero, ◌++◌, ◌∷◌, [], arith,
}
use genode_imx.Base.Run.{ok}
use genode_imx.Gpu.Abi.{Abi}
use genode_imx.Gpu.Server.State.{
  invalid, map, Request, no_request, lx_mapping_attrs, Buffer, notified, DrmCalls, Server, find,
}
use genode_imx.Gpu.Server.Task.{do_map, dispatch, run_task}
use genode_imx.Gpu.Server.Rpc.{managed_id, create, schedule_request, map_new, map_cpu}

module _ {W : Type 0} (abi : Abi) (api : DrmCalls W) where
  -- The request of a call of `map_cpu`.
  abbrev pub map_request : (id : ℕ) → (readable writeable : Bool) → Server W → Request
  map_request id r w s = record no_request {
    type = map;
    id = id;
    readable = r;
    writeable = w;
    tag = (s.tag_counter + 1) % 2 ^ 64;
  }

  -- The state that a call leaves which the kernel answers with an error.
  abbrev pub map_failed : (id : ℕ) → (readable writeable : Bool) → Buffer → Server W → Server W
  map_failed id r w b s =
      let q = map_request id r w s in
      record s {
        world = (api.cpu_prep s.drm b.handle (lx_mapping_attrs q) s.world).1;
        pending = no_request;
        completed = q;
        linked = true;
        blocked = false;
        pending_map = true;
        tag_counter = (s.tag_counter + 1) % 2 ^ 64;
        events = s.events ++ notified ∷ [];
      }

  -- Let no request be pending, and let the kernel refuse to prepare a buffer that is there. Then
  -- `map_cpu` of that buffer returns the invalid capability, and the next call of `map_cpu`, for
  -- whatever buffer and access it is, returns the capability of the first buffer, and asks the
  -- kernel for nothing.
  pub map_cpu-map_cpu :
      (id : ℕ) (r w : Bool) (b : Buffer) (s : Server W)
      → s.pending.type ≡ invalid
      → s.pending_map ≡ false
      → s.blocked ≡ false
      → find id s.buffers ≡ some b
      → api.blocks (map_request id r w s) s.world ≡ false
      → is_nonzero (api.cpu_prep s.drm b.handle (lx_mapping_attrs (map_request id r w s)) s.world).0
        ≡ true
      → let t = map_failed id r w b s in
        (map_cpu abi api id r w s ≡ ok 0 t)
        × ((j : ℕ) (r' w' : Bool)
            → map_cpu abi api j r' w' t ≡ ok b.cap (record t { pending_map = false }))
  unfolding map_cpu map_new create schedule_request managed_id run_task dispatch do_map
  map_cpu-map_cpu id r w b s idle fresh awake found runs refused =
      (ground arith, λ j r' w'. ground arith)
