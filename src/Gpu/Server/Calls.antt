-- ===== src/Gpu/Server/Calls.antt =====
-- Every call on a GPU session changes its buffers as one turn of the task does.
use genode_imx.Base.{
  ℕ, ◌+◌, ◌-◌, ◌%◌, ◌^◌, Bool, true, false, not, ◌&&◌, Option, none, some, ltb, refl, ◌≡◌,
}
use genode_imx.Base.Run.{Cmd, AfterOk, AfterOk-and_then, AfterOk-if_cmd, pure, modify, ◌>>=◌, ◌>>◌}
use genode_imx.Gpu.Abi.{Abi}
use genode_imx.Gpu.Server.State.{
  OpType, Request, no_request, DrmCalls, Server, is_valid, free, alloc, exec, wait, map, unmap,
}
use genode_imx.Gpu.Server.Task.{run_task}
use genode_imx.Gpu.Server.Rpc.{
  create, managed_id, schedule_request, execute, complete, alloc_vram, free_vram, map_new, map_cpu,
  unmap_cpu, handle_signal, is_map, cap_of,
}
use genode_imx.Gpu.Server.Frame.{Change, same, Change-frame, Change-refl, run_task-Change}

-- The calls of a client, and the signals that let the task go on.
pub data Call : Type 0 where
  executes : (id : ℕ) → Call
  completes : (seqno : ℕ) → Call
  allocs : (id size : ℕ) → Call
  frees : (id : ℕ) → Call
  maps : (id : ℕ) → (readable writeable : Bool) → Call
  unmaps : (id : ℕ) → Call
  signals : Call

module _ {W : Type 0} (abi : Abi) (api : DrmCalls W) where
  -- A call, without its result.
  unfoldable pub step : Call → Cmd (Server W) (Unit {0})
  step (executes id) = do r ← execute abi api id; pure tt
  step (completes seqno) = do r ← complete abi api seqno; pure tt
  step (allocs id size) = do r ← alloc_vram abi api id size; pure tt
  step (frees id) = free_vram abi api id
  step (maps id readable writeable) = do r ← map_cpu abi api id readable writeable; pure tt
  step (unmaps id) = unmap_cpu abi api id
  step signals = handle_signal abi api

module _ {W : Type 0} (abi : Abi) (api : DrmCalls W) (asks : OpType → ℕ → Type 0) where
  abbrev After : {A : Type 0} → Server W → A → Server W → Type 0
  After s a u = Change asks s u

  pub schedule_request-Change :
      (r : Request) (s : Server W)
      → asks r.type r.id
      → AfterOk (After s) (schedule_request abi api r s)
  unfolding schedule_request
  schedule_request-Change r s p =
      AfterOk-if_cmd (After s) (is_valid s.pending.type) _ _ s (λ e. Change-refl s)
        λ e.
          AfterOk-if_cmd (After s) (not (managed_id abi api r.type r.id s.buffers)) _ _ s
            (λ e. Change-refl s)
            λ e.
              let request = record s { pending = r; linked = true } in
              AfterOk-and_then (After request) (After s) (run_task abi api request) _
                (run_task-Change abi api asks request p) λ a u c. Change-frame refl refl refl refl c

  -- A scheduled request, and what the call does with its answer.
  answered-Change :
      {A : Type 0} (n : ℕ) (q : Request) (k : Option Request → Cmd (Server W) A) (s : Server W)
      → asks q.type q.id
      → ((o : Option Request) (u : Server W) → Change asks s u → AfterOk (After s) (k o u))
      → AfterOk (After s) ((schedule_request abi api q >>= k) (record s { tag_counter = n }))
  answered-Change n q k s p rest =
      let counted = record s { tag_counter = n } in
      AfterOk-and_then (After counted) (After s) (schedule_request abi api q counted) k
        (schedule_request-Change q counted p) λ o u c. rest o u (Change-frame refl refl refl refl c)

  abbrev next_tag : Server W → ℕ
  next_tag s = (s.tag_counter + 1) % 2 ^ 64

  abbrev asked : OpType → Server W → Request
  asked t s = record no_request { type = t; readable = true; tag = next_tag s }

  execute-Change : (id : ℕ) (s : Server W) → asks exec id → AfterOk (After s) (execute abi api id s)
  unfolding execute create
  execute-Change id s p =
      answered-Change (next_tag s) (record (asked exec s) { id = id })
        (λ done. pure (elim done [ none ↦ none | some q ↦ some q.seqno ])) s p (λ o u c. c)

  complete-Change :
      (seqno : ℕ) (s : Server W) → asks wait 0 → AfterOk (After s) (complete abi api seqno s)
  unfolding complete create
  complete-Change seqno s p =
      answered-Change (next_tag s) (record (asked wait s) { seqno = seqno })
        (λ done. pure (elim done [ none ↦ false | some q ↦ q.success ])) s p (λ o u c. c)

  cap_of-Change :
      (o : Option Request) (s u : Server W)
      → Change asks s u
      → AfterOk (After s) (cap_of abi api o u)
  cap_of-Change none s u c = c
  cap_of-Change (some q) s u c = c

  alloc_vram-Change :
      (id size : ℕ) (s : Server W)
      → asks alloc id
      → AfterOk (After s) (alloc_vram abi api id size s)
  unfolding alloc_vram create
  alloc_vram-Change id size s p =
      AfterOk-if_cmd (After s) (ltb (2 ^ 32 - 1) size) _ _ s (λ e. Change-refl s)
        λ e.
          answered-Change (next_tag s) (record (asked alloc s) { id = id; size = size })
            (cap_of abi api) s p (λ o u c. cap_of-Change o s u c)

  free_vram-Change :
      (id : ℕ) (s : Server W) → asks free id → AfterOk (After s) (free_vram abi api id s)
  unfolding free_vram create
  free_vram-Change id s p =
      answered-Change (next_tag s) (record (asked free s) { id = id }) (λ done. pure tt) s p
        (λ o u c. c)

  unmap_cpu-Change :
      (id : ℕ) (s : Server W) → asks unmap id → AfterOk (After s) (unmap_cpu abi api id s)
  unfolding unmap_cpu create
  unmap_cpu-Change id s p =
      answered-Change (next_tag s) (record (asked unmap s) { id = id }) (λ done. pure tt) s p
        (λ o u c. c)

  map_new-Change :
      (id : ℕ) (r w : Bool) (s : Server W)
      → asks map id
      → AfterOk (After s) (map_new abi api id r w s)
  unfolding map_new create
  map_new-Change id r w s p =
      answered-Change (next_tag s) (record (asked map s) { id = id; readable = r; writeable = w })
        (λ o. (do
          modify (λ t. elim o [ none ↦ record t { pending_map = true } | some q ↦ t ])
          cap_of abi api o))
        s p mapped
    where
      mapped :
          (o : Option Request) (u : Server W)
          → Change asks s u
          → AfterOk (After s) (
              (do
                modify (λ t. elim o [ none ↦ record t { pending_map = true } | some q ↦ t ])
                cap_of abi api o)
                u)
      mapped none u c = Change-frame refl refl refl refl c
      mapped (some q) u c = c

  map_cpu-Change :
      (id : ℕ) (r w : Bool) (s : Server W)
      → asks map id
      → AfterOk (After s) (map_cpu abi api id r w s)
  unfolding map_cpu
  map_cpu-Change id r w s p =
      AfterOk-if_cmd (After s) (s.pending_map && (s.linked && is_map s.pending.type)) _ _ s
        (λ e. Change-refl s)
        λ e.
          AfterOk-if_cmd (After s) (s.pending_map && (s.linked && is_map s.completed.type)) _ _ s
            (λ f. same refl (λ h. refl)) (λ f. map_new-Change id r w s p)

  handle_signal-Change :
      (s : Server W)
      → asks s.pending.type s.pending.id
      → AfterOk (After s) (handle_signal abi api s)
  unfolding handle_signal
  handle_signal-Change s p =
      AfterOk-if_cmd (After s) s.blocked _ _ s (λ e. run_task-Change abi api asks s p)
        (λ e. Change-refl s)

  forget :
      {A : Type 0} (m : Cmd (Server W) A) (s : Server W)
      → AfterOk (After s) (m s)
      → AfterOk (After s) ((do r ← m; pure tt) s)
  forget m s h = AfterOk-and_then (After s) (After s) (m s) _ h (λ a u c. c)

-- The operation that a call asks for, and the id that it is about; a signal lets the task go on
-- with the pending request.
abbrev pub Asks : {W : Type 0} → Server W → Call → OpType → ℕ → Type 0
Asks s (executes id) t i = (t ≡ exec) × (i ≡ id)
Asks s (completes seqno) t i = t ≡ wait
Asks s (allocs id size) t i = (t ≡ alloc) × (i ≡ id)
Asks s (frees id) t i = (t ≡ free) × (i ≡ id)
Asks s (maps id readable writeable) t i = (t ≡ map) × (i ≡ id)
Asks s (unmaps id) t i = (t ≡ unmap) × (i ≡ id)
Asks s signals t i = (t ≡ s.pending.type) × (i ≡ s.pending.id)

module _ {W : Type 0} (abi : Abi) (api : DrmCalls W) where
  -- Every call makes one change at most, and the one that it asks for.
  pub step-Change :
      (c : Call) (s : Server W) → AfterOk (λ _ u. Change (Asks s c) s u) (step abi api c s)
  unfolding step
  step-Change (executes id) s =
      forget abi api (Asks s (executes id)) (execute abi api id) s
        (execute-Change abi api (Asks s (executes id)) id s (refl, refl))
  step-Change (completes seqno) s =
      forget abi api (Asks s (completes seqno)) (complete abi api seqno) s
        (complete-Change abi api (Asks s (completes seqno)) seqno s refl)
  step-Change (allocs id size) s =
      forget abi api (Asks s (allocs id size)) (alloc_vram abi api id size) s
        (alloc_vram-Change abi api (Asks s (allocs id size)) id size s (refl, refl))
  step-Change (frees id) s = free_vram-Change abi api (Asks s (frees id)) id s (refl, refl)
  step-Change (maps id r w) s =
      forget abi api (Asks s (maps id r w)) (map_cpu abi api id r w) s
        (map_cpu-Change abi api (Asks s (maps id r w)) id r w s (refl, refl))
  step-Change (unmaps id) s = unmap_cpu-Change abi api (Asks s (unmaps id)) id s (refl, refl)
  step-Change signals s = handle_signal-Change abi api (Asks s signals) s (refl, refl)
