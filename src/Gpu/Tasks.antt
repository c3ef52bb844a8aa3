-- ===== src/Gpu/Tasks.antt =====
-- The tasks of src/drivers/gpu/imx8mq/lx_user.c: one per GPU session, each of which ends itself.
use genode_imx.Base.{ℕ, not, ◌==◌, if◌then◌else◌, Ptr, List, [], ◌∷◌, ◌++◌}
use genode_imx.Base.Run.{Cmd, ok, stopped}

-- The statics `lx_user_task` and `lx_user_task_args`, the kernel's tasks by pid, and the messages.
pub record Tasks : Type 0 where
  pub user_task : Ptr
  pub user_args : Ptr
  pub started : List (ℕ × Ptr)
  pub complaints : List (Ptr × Ptr)

-- `kernel_thread` returns the pid given here, and `find_task_by_pid_ns` finds its task.
pub record Kernel : Type 0 where
  pub kernel_thread : ℕ → Ptr → Tasks → ℕ
  pub find_task : ℕ → Ptr

abbrev start : Kernel → ℕ → Ptr → Tasks → Tasks
start k func args t = record t { started = (func, args) ∷ t.started }

-- `lx_user_new_gpu_task`
pub lx_user_new_gpu_task : Kernel → ℕ → Ptr → Cmd Tasks Ptr
lx_user_new_gpu_task k func args t =
    ok (k.find_task (k.kernel_thread func args t)) (start k func args t)

-- `lx_user_init` starts `lx_user_task_func`.
pub lx_user_init : Kernel → ℕ → Cmd Tasks (Unit {0})
lx_user_init k func t = ok tt (record (start k func t.user_args t) {
  user_task = k.find_task (k.kernel_thread func t.user_args t);
})

-- `lx_user_destroy_gpu_task`; `do_exit` does not return.
pub lx_user_destroy_gpu_task : (task current : Ptr) → Cmd Tasks (Unit {0})
lx_user_destroy_gpu_task task current t =
    if not (task == current)
    then ok tt (record t { complaints = t.complaints ++ (task, current) ∷ [] })
    else stopped
