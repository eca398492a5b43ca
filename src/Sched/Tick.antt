-- ===== src/Sched/Tick.antt =====
-- The clock tick: `timer_interrupt` of timer.c and `global_task_administration` of schedule.c.
pub mod Alarm
use cyb_os.Prelude.{
  ℕ, zero, suc, ◌+◌, ◌-◌, ◌%◌, ◌^◌, Bool, true, false, ◌&&◌, ◌||◌, not, ◌==◌, if◌then◌else◌,
}
use cyb_os.Prelude.Run.{out_of_fuel, Cmd, pure, ◌>>=◌, ◌>>◌, gets, modify, return}
use cyb_os.Sched.State.{
  Ptr, null, runnable, Task, Kernel, pid_idle, load, store, disable_ints, restore_ints,
  is_initialising, is_interruptable,
}
use cyb_os.Sched.Signal.{sys_signal, sigalrm}

abbrev pub quantum : ℕ
quantum = 50

-- The alarm of one task.
unfoldable pub count_down : Ptr → Cmd Kernel (Unit {0})
count_down task = do
  t ← load task
  if t.alarm == 0 then return else do
    store task (λ u. record u { alarm = t.alarm - 1 })
    if t.alarm - 1 == 0 then sys_signal task sigalrm else return

-- A task that sleeps and has a signal runs again.
unfoldable pub wake_on_signal : Ptr → Cmd Kernel (Unit {0})
wake_on_signal task = do
  t ← load task
  if not (t.signal == 0) && is_interruptable t.state
      then store task (λ u. record u { state = runnable })
      else return

-- The body of the loop.
unfoldable pub administer : Ptr → Cmd Kernel (Unit {0})
administer task = do
  t ← load task
  if is_initialising t.state || t.pid == pid_idle
      then return
      else do count_down task; wake_on_signal task

unfoldable pub administer_from : ℕ → Ptr → Cmd Kernel (Unit {0})
administer_from zero p = λ _. out_of_fuel
administer_from (suc fuel) p = do
  let rest = (do administer p; t ← load p; administer_from fuel t.next)
  if p == null then return else rest

unfoldable pub global_task_administration : ℕ → Cmd Kernel (Unit {0})
global_task_administration fuel = do
  was ← disable_ints
  list ← gets (λ s. s.task_list)
  administer_from fuel list
  restore_ints was

-- Whether a reschedule is due. `_schedule_ticks` is unsigned, so `<= 0` is `== 0`.
unfoldable pub timer_interrupt : (fuel rpl : ℕ) → Cmd Kernel Bool
timer_interrupt fuel rpl = do
  modify (λ s. record s { kernel_ticks = (s.kernel_ticks + 1) % 2 ^ 64 })
  cur ← gets (λ s. s.current_task)
  if cur == null then pure false else do
    store cur (λ t.
        if rpl == 0
        then record t { ktime = (t.ktime + 1) % 2 ^ 64 }
        else record t { utime = (t.utime + 1) % 2 ^ 64 })
    global_task_administration fuel
    modify (λ s. record s { schedule_ticks = (s.schedule_ticks + 2 ^ 32 - 1) % 2 ^ 32 })
    ticks ← gets (λ s. s.schedule_ticks)
    if ticks == 0
        then modify (λ s. record s { schedule_ticks = quantum }) >> pure true
        else pure false
