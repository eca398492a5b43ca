-- ===== src/Sched/Process.antt =====
-- The process calls of schedule.c: fork, exit, sleep, idle and the pids.
pub mod Fork
pub mod Orphans
use cyb_os.Prelude.{ℕ, zero, suc, ◌+◌, ◌-◌, ◌%◌, ◌^◌, Bool, true, ◌==◌, ltb, if◌then◌else◌}
use cyb_os.Prelude.Run.{panic, out_of_fuel, Cmd, pure, ◌>>=◌, ◌>>◌, gets, modify, return}
use cyb_os.Sched.State.{
  Ptr, null, runnable, interruptable, zombie, Frame, Kernel, pid_idle, kernel_stack_size, write,
  load, store, disable_ints, restore_ints,
}
use cyb_os.Sched.TaskList.{sched_add_task, sched_remove_task, sched_get_task}
use cyb_os.Sched.Signal.{sys_signal, sigchld}
use cyb_os.Sched.Switch.{reschedule}
use cyb_os.Sched.Pid.{allocate_new_pid}

-- Where `r` lies on the parent's kernel stack, the child's context lies on the child's.
abbrev pub child_context : (child_kstack parent_kstack r : Ptr) → Ptr
child_context child_kstack parent_kstack r =
    let stackpointer_offset = (parent_kstack + kernel_stack_size + 2 ^ 32 - r) % 2 ^ 32 in
    (child_kstack + kernel_stack_size + 2 ^ 32 - stackpointer_offset) % 2 ^ 32

-- The lines of `sys_fork` behind `sched_add_task`.
unfoldable pub finish_fork : Bool → Ptr → Cmd Kernel ℕ
finish_fork was child = do
  store child (λ t. record t { state = runnable })
  restore_ints was
  c ← load child
  pure c.pid

-- `child` and `kstack` are what the two calls of `kmalloc` return, `pagedir` is the clone of the
-- parent's page directory.
unfoldable pub sys_fork : (rounds fuel : ℕ) → (child kstack pagedir r : Ptr) → Cmd Kernel ℕ
sys_fork rounds fuel child kstack pagedir r = do
  was ← disable_ints
  parent ← gets (λ s. s.current_task)
  p ← load parent
  store child (λ _. p)
  store child (λ t. record t { page_directory = pagedir })
  pid ← allocate_new_pid rounds fuel
  store child (λ t. record t {
    pid = pid;
    ppid = p.pid;
    ktime = 0;
    utime = 0;
    kstack = kstack;
    context = child_context kstack p.kstack r;
  })
  modify (λ s. record s {
    saved_eax = write s.saved_eax (child_context kstack p.kstack r) 0;
    frame = write s.frame child Frame.first;
  })
  sched_add_task fuel child
  finish_fork was child

-- The children of the task that exits become children of the idle task.
unfoldable pub reparent_from : ℕ → (pid : ℕ) → Ptr → Cmd Kernel (Unit {0})
reparent_from zero pid p = λ _. out_of_fuel
reparent_from (suc fuel) pid p = do
  let rest = (do
    t ← load p
    if t.ppid == pid then store p (λ u. record u { ppid = 0 }) else return
    u ← load p
    reparent_from fuel pid u.next)
  if p == null then return else rest

-- `kfree` of the stack and of the task is the heap's, and does nothing. The code behind
-- `reschedule` is not reached by the task that exits.
unfoldable pub sys_exit : (fuel exitcode : ℕ) → Cmd Kernel ℕ
sys_exit fuel exitcode = do
  cur ← gets (λ s. s.current_task)
  c ← load cur
  if c.pid == pid_idle then (λ _. panic) else return
  list ← gets (λ s. s.task_list)
  reparent_from fuel c.pid list
  d ← load cur
  if ltb 0 d.ppid
      then (do
        store cur (λ t. record t { state = zombie })
        parent ← sched_get_task fuel d.ppid
        sys_signal parent sigchld
        store cur (λ t. record t { exitcode = exitcode }))
      else sched_remove_task cur
  reschedule fuel
  pure 0

unfoldable pub sys_sleep : (fuel ms : ℕ) → Cmd Kernel ℕ
sys_sleep fuel ms = do
  cur ← gets (λ s. s.current_task)
  t ← load cur
  if t.pid == pid_idle then (λ _. panic) else return
  was ← disable_ints
  store cur (λ u. record u { alarm = ms; state = interruptable })
  restore_ints was
  reschedule fuel
  pure 0

-- `sti` and `hlt` for the idle task, a panic for any other.
unfoldable pub sys_idle : Cmd Kernel ℕ
sys_idle = do
  cur ← gets (λ s. s.current_task)
  t ← load cur
  if t.pid == pid_idle then return else (λ _. panic)
  modify (λ s. record s { ints = true })
  pure 0

unfoldable pub sys_getpid : Cmd Kernel ℕ
sys_getpid = do cur ← gets (λ s. s.current_task); t ← load cur; pure t.pid

unfoldable pub sys_getppid : Cmd Kernel ℕ
sys_getppid = do cur ← gets (λ s. s.current_task); t ← load cur; pure t.ppid
