-- ===== src/Gpu/Server/Tests.antt =====
-- A session with two buffers, over a kernel that counts its objects.
use mathlib.Core.List.{Perm}
use genode_imx.Base.{
  ℕ, zero, suc, pos, negsuc, ◌+◌, ◌*◌, ◌≡◌, ◌<◌, Bool, true, false, none, some, ◌==◌, if◌then◌else◌,
  null, replicate, List, [], ◌∷◌, ◌++◌, refl, arith,
}
use genode_imx.Base.Run.{ok, waiting}
use genode_imx.Gpu.Ioctl.{Memory, lx_drm_gem_submit_bo_handle}
use genode_imx.Gpu.Linux.{linux}
use genode_imx.Gpu.Server.State.{
  alloc, free, wait, no_request, Buffer, Event, created, closed, drm_closed, DrmCalls, Server, find,
  remove,
}
use genode_imx.Gpu.Server.Task.{
  translate, open_drm, populate_info, run_task, dispatch, do_alloc, do_free, alloc_made, insert,
}
use genode_imx.Gpu.Server.Rpc.{
  map_cpu, free_buffers, destroy, alloc_vram, free_vram, create, schedule_request, managed_id,
}
use genode_imx.Gpu.Server.Start.{params}
use genode_imx.Gpu.Server.Frame.{made, gone}
use genode_imx.Gpu.Server.Calls.{allocs, frees, Asks, step}
use genode_imx.Gpu.Server.Handles.{held, OwnsObjects, Reach, start, call, Reach-OwnsObjects}
use genode_imx.Gpu.Server.Ids.{Move, table, step-Move}
use genode_imx.Gpu.Server.Life.{FreesAtOnce, PicksOne, closings, free_buffers_hangs, destroy_lem}
use genode_imx.Gpu.Server.Remap.{map_failed, map_cpu-map_cpu}
use genode_imx.Gpu.Server.Submit.{IsLayout, Replaced, translate_lem}

-- The world is the number of objects made; preparing an object for the CPU always fails.
abbrev kernel : DrmCalls ℕ
kernel = record {
  drm_open = λ w. (7, w);
  drm_close = λ d w. w;
  gem_param = λ d p w. (pos 0, p, w);
  gem_new = λ d size w. (pos 0, w + 1, w + 1);
  gem_info = λ d h w. (pos 0, h * 4096, w);
  gem_close = λ d h w. w;
  gem_submit = λ d a m w. (pos 0, 1, m, w);
  wait_fence = λ d f w. (pos 0, w);
  cpu_prep = λ d h o w. (negsuc 21, w);
  cpu_fini = λ d h w. w;
  lookup_cap = λ d o n w. (o + 1, w);
  attach = λ c w. (some (c * 16, 4096), w);
  blocks = λ r w. elim r.type [ wait ↦ true | _ ↦ false ];
}

abbrev closed_session : Server ℕ
closed_session = record {
  world = 0;
  drm = null;
  info = [];
  buffers = [];
  mem = λ a. 0;
  pending = no_request;
  completed = no_request;
  linked = false;
  blocked = false;
  pending_map = false;
  tag_counter = 0;
  events = [];
}

abbrev fresh : Server ℕ
fresh = record closed_session { drm = 7 }

abbrev first : Buffer
first = record { handle = 1; cap = 4097; local_addr = 65552; ds_size = 4096 }

abbrev one_buffer : Server ℕ
one_buffer = record fresh {
  world = 1;
  buffers = (30, first) ∷ [];
  completed = record no_request {
    type = alloc;
    id = 30;
    size = 8192;
    readable = true;
    success = true;
    tag = 1;
  };
  linked = true;
  tag_counter = 1;
  events = created 1 ∷ [];
}

allocs_one : step linux kernel (allocs 30 8192) fresh ≡ ok tt one_buffer
unfolding step alloc_vram create schedule_request managed_id run_task dispatch do_alloc alloc_made
    insert find
allocs_one = refl

fresh-OwnsObjects : OwnsObjects fresh
unfolding OwnsObjects made gone held
fresh-OwnsObjects h = refl

reached : Reach linux kernel fresh one_buffer
reached = call start (allocs 30 8192) allocs_one

Reach-OwnsObjects_example : OwnsObjects one_buffer
Reach-OwnsObjects_example = Reach-OwnsObjects linux kernel fresh-OwnsObjects reached

-- The buffer is there, and freeing it takes it out.
abbrev freed_one : Server ℕ
freed_one = record one_buffer {
  buffers = [];
  completed = record no_request { type = free; id = 30; readable = true; success = true; tag = 2 };
  tag_counter = 2;
  events = created 1 ∷ closed 1 ∷ [];
}

frees_one : step linux kernel (frees 30) one_buffer ≡ ok tt freed_one
unfolding step free_vram create schedule_request managed_id run_task dispatch do_free find remove
frees_one = refl

step-Move_example : Move (Asks one_buffer (frees 30)) (table one_buffer) (table freed_one)
step-Move_example = step-Move linux kernel (frees 30) refl reached frees_one

abbrev opened_session : Server ℕ
opened_session = record closed_session {
  drm = 7;
  info =
      0 ∷ 1 ∷ 2 ∷ 3 ∷ 4 ∷ 5 ∷ 6 ∷ 7 ∷ 8 ∷ 9 ∷ 10 ∷ 0 ∷ 0 ∷ 0 ∷ 0 ∷ 0 ∷ 16 ∷ 17 ∷ 18 ∷ 19 ∷ 20 ∷ 21
      ∷ 22 ∷ 23 ∷ 24 ∷ 25 ∷ 26 ∷ 27 ∷ 0 ∷ 0 ∷ 0 ∷ 0 ∷ [];
}

opened : open_drm linux kernel params (replicate 32 0) closed_session ≡ ok true opened_session
unfolding open_drm populate_info
opened = refl

-- A request to wait is pending.
abbrev waits : Server ℕ
waits = record one_buffer {
  pending = record no_request { type = wait; seqno = 5; tag = 2 };
  blocked = true;
}

-- The id space gives the buffer that was entered last.
abbrev newest : List (ℕ × Buffer) → ℕ
newest [] = 0
newest ((id, b) ∷ bs) = id

free_buffers_hangs_example : free_buffers linux kernel newest 1000 waits ≡ waiting
free_buffers_hangs_example = free_buffers_hangs linux kernel newest 1000 30 first [] waits refl refl

kernel-FreesAtOnce : FreesAtOnce linux kernel
kernel-FreesAtOnce q w e = ground arith

newest-PicksOne : PicksOne linux kernel newest
unfolding find
newest-PicksOne (id, b) bs = (b, ground arith)

destroy_lem_example :
    (t : Server ℕ) × (es : List Event) × (destroy linux kernel newest 2 one_buffer ≡ ok true t)
    × (t.buffers ≡ [])
    × (t.drm ≡ null)
    × (t.events ≡ (created 1 ∷ []) ++ (es ++ drm_closed ∷ []))
    × Perm es (closings linux kernel ((30, first) ∷ []))
destroy_lem_example =
    destroy_lem linux kernel newest 2 one_buffer newest-PicksOne kernel-FreesAtOnce (omega arith)
      refl refl refl (omega arith)

map_cpu-map_cpu_example :
    let t = map_failed linux kernel 30 true false first one_buffer in
    (map_cpu linux kernel 30 true false one_buffer ≡ ok 0 t)
    × ((j : ℕ) (r' w' : Bool)
        → map_cpu linux kernel j r' w' t ≡ ok 4097 (record t { pending_map = false }))
unfolding find
map_cpu-map_cpu_example =
    map_cpu-map_cpu linux kernel 30 true false first one_buffer refl refl refl found refl refl
  where
    found : find 30 one_buffer.buffers ≡ some first
    found = refl

-- The buffer lists two objects, 100 bytes behind its start, by the client's id 30.
abbrev listing : ℕ → Memory
listing other a =
    if a == 65576 then 100 else if a == 65656 then 30 else if a == 65680 then other else 0

abbrev submits : ℕ → Server ℕ
submits other = record one_buffer { mem = listing other }

abbrev place : ℕ → ℕ
place k = 65656 + k * 24

listing-IsLayout : (other : ℕ) → IsLayout linux kernel 65552 2 place (listing other)
unfolding lx_drm_gem_submit_bo_handle
listing-IsLayout other = record {
  at = λ k low. omega arith;
  apart = λ j k hj hk e. omega arith;
  live = λ k low. omega arith;
  header = λ k low. omega arith;
}

listed :
    (k : ℕ) → k < 2 → (b : Buffer) × (find ((submits 30).mem (place k)) one_buffer.buffers ≡ some b)
unfolding find
listed zero low = (first, refl)
listed (suc zero) low = (first, refl)
listed (suc (suc k)) low = absurd (omega arith)

translate_lem_example :
    (u : Server ℕ) × (translate linux kernel 2 0 65552 (submits 30) ≡ ok (pos 0) u)
    × Replaced linux kernel 65552 2 place 0 2 (submits 30) u
translate_lem_example =
    translate_lem linux kernel 65552 2 2 place (submits 30) (omega arith) (listing-IsLayout 30)
      listed

listed_first :
    (k : ℕ) → k < 1 → (b : Buffer) × (find ((submits 31).mem (place k)) one_buffer.buffers ≡ some b)
unfolding find
listed_first zero low = (first, refl)
listed_first (suc k) low = absurd (omega arith)

unlisted : find ((submits 31).mem (place 1)) one_buffer.buffers ≡ none
unfolding find
unlisted = refl
