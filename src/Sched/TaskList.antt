-- ===== src/Sched/TaskList.antt =====
-- The doubly linked list of tasks: `sched_add_task`, `sched_remove_task`, `sched_get_task` and
-- `get_next_runnable_task` of schedule.c. `fuel` bounds the rounds of each walk along the list.
pub mod Chain
pub mod Add
pub mod Remove
pub mod Pick
pub mod Fair
use cyb_os.Prelude.{ℕ, zero, suc, ◌&&◌, not, ◌==◌, if◌then◌else◌}
use cyb_os.Prelude.Run.{panic, out_of_fuel, Cmd, pure, ◌>>=◌, ◌>>◌, gets, modify, return}
use cyb_os.Sched.State.{
  Ptr, null, Kernel, pid_idle, load, store, disable_ints, restore_ints, is_runnable,
}

-- `while (last_task->next != NULL) last_task = last_task->next;`
unfoldable pub find_last : ℕ → Ptr → Cmd Kernel Ptr
find_last zero p = λ _. out_of_fuel
find_last (suc fuel) p = do
  t ← load p
  let rest = find_last fuel t.next
  if t.next == null then pure p else rest

unfoldable pub sched_add_task : ℕ → Ptr → Cmd Kernel (Unit {0})
sched_add_task fuel new_task = do
  was ← disable_ints
  list ← gets (λ s. s.task_list)
  if list == null
      then (do
        modify (λ s. record s { task_list = new_task })
        store new_task (λ t. record t { next = null })
        store new_task (λ t. record t { prev = null })
        modify (λ s. record s { idle_task = new_task }))
      else (do
        last_task ← find_last fuel list
        store last_task (λ t. record t { next = new_task })
        if last_task == new_task
            then return
            else store new_task (λ t. record t { prev = last_task })
        store new_task (λ t. record t { next = null }))
  restore_ints was

unfoldable pub sched_remove_task : Ptr → Cmd Kernel (Unit {0})
sched_remove_task task = do
  t ← load task
  if t.pid == pid_idle then (λ _. panic) else return
  was ← disable_ints
  if t.next == null
      then store t.prev (λ u. record u { next = null })
      else if t.prev == null
      then (do
        modify (λ s. record s { task_list = t.next })
        store task (λ u. record u { prev = null }))
      else (do
        store t.prev (λ u. record u { next = t.next })
        store t.next (λ u. record u { prev = t.prev }))
  restore_ints was

-- The `do … while` of `get_next_runnable_task`; `null` when it comes back to `current_task`.
unfoldable pub next_runnable_from : ℕ → (current_task next_task : Ptr) → Cmd Kernel Ptr
next_runnable_from zero current_task p = λ _. out_of_fuel
next_runnable_from (suc fuel) current_task p = do
  t ← load p
  list ← gets (λ s. s.task_list)
  let q = if t.next == null then list else t.next
  u ← load q
  let rest = next_runnable_from fuel current_task q
  if is_runnable u.state && not (u.pid == pid_idle)
      then pure q
      else if q == current_task
      then pure null
      else rest

unfoldable pub get_next_runnable_task : ℕ → Ptr → Cmd Kernel Ptr
get_next_runnable_task fuel current_task = do
  was ← disable_ints
  t ← load current_task
  found ←
      (if t.prev == null && t.next == null
        then pure current_task
        else next_runnable_from fuel current_task current_task)
  restore_ints was
  pure found

-- `for (task = _task_list; task != NULL; task = task->next)`
unfoldable pub get_task_from : ℕ → (pid : ℕ) → Ptr → Cmd Kernel Ptr
get_task_from zero pid p = λ _. out_of_fuel
get_task_from (suc fuel) pid p = do
  let rest = (do t ← load p; get_task_from fuel pid t.next)
  if p == null then pure null else (do t ← load p; if t.pid == pid then pure p else rest)

unfoldable pub sched_get_task : ℕ → ℕ → Cmd Kernel Ptr
sched_get_task fuel pid = do list ← gets (λ s. s.task_list); get_task_from fuel pid list
