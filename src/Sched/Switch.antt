-- ===== src/Sched/Switch.antt =====
-- `switch_task` and `reschedule` of schedule.c, with `do_context_switch` of task.S.
pub mod Choice
use cyb_os.Prelude.{ℕ, ◌+◌, ◌%◌, ◌^◌, Bool, true, false, ◌==◌, not, if◌then◌else◌}
use cyb_os.Prelude.Run.{Run, ok, Cmd, pure, ◌>>=◌, ◌>>◌, gets, modify, return}
use cyb_os.Sched.State.{
  Ptr, null, TaskState, runnable, running, Task, Frame, Kernel, pid_idle, kernel_stack_size, write,
  load, store, disable_ints, restore_ints, is_running,
}
use cyb_os.Sched.TaskList.{get_next_runnable_task}
use cyb_os.Sched.Signal.{handle_pending_signals}

-- What the resumed task does first: return into `switch_task`, which restores its own interrupt
-- state (`true`), or leave the kernel as an interrupt does, by `sti` and `iret` (`false`).
unfoldable pub resume : Frame → Cmd Kernel Bool
resume Frame.first = modify (λ s. record s { ints = true }) >> pure false
resume (Frame.switched was) = restore_ints was >> pure true

-- ESP is saved into the old task's context and loaded from the new one's; `was` stays on the old
-- task's kernel stack.
unfoldable pub do_context_switch : Bool → (prev next : Ptr) → Cmd Kernel Bool
unfolding resume
do_context_switch was prev next = do
  esp ← gets (λ s. s.esp)
  modify (λ s. record s { frame = write s.frame prev (Frame.switched was) })
  store prev (λ t. record t { context = esp })
  n ← load next
  modify (λ s. record s { esp = n.context })
  frame ← gets (λ s. s.frame next)
  resume frame

-- The writes that make `next_task` the current task.
unfoldable pub enter : Ptr → Cmd Kernel (Unit {0})
enter next_task = do
  n ← load next_task
  if n.pid == pid_idle then return else store next_task (λ t. record t { state = running })
  modify (λ s. record s {
    esp0 = (n.kstack + kernel_stack_size) % 2 ^ 32;
    cr3 = n.page_directory;
    current_task = next_task;
  })

unfoldable pub stop_running : Ptr → Cmd Kernel (Unit {0})
stop_running task = do
  t ← load task
  if is_running t.state then store task (λ u. record u { state = runnable }) else return

unfoldable pub switch_task : ℕ → Cmd Kernel Bool
unfolding enter stop_running do_context_switch
switch_task fuel = do
  cur ← gets (λ s. s.current_task)
  if cur == null then pure true else do
    t ← load cur
    if not (t.signal == 0) then pure true else do
      was ← disable_ints
      stop_running cur
      found ← get_next_runnable_task fuel cur
      idle ← gets (λ s. s.idle_task)
      let next_task = if found == null then idle else found
      if cur == next_task
          then restore_ints was >> pure true
          else do enter next_task; do_context_switch was cur next_task

unfoldable pub reschedule : ℕ → Cmd Kernel (Unit {0})
reschedule fuel = do back ← switch_task fuel; if back then handle_pending_signals else return
