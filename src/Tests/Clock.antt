-- ===== src/Tests/Clock.antt =====
-- The theorems on signals, ticks and wait queues at three tasks.
use cyb_os.Prelude.{ℕ, ◌<◌, ◌≡◌, ◌≢◌, true, ◌&&◌, not, [], ◌∷◌, arith, ◌==◌, if◌then◌else◌}
use cyb_os.Word.Bits.{bit}
use cyb_os.Sched.State.{Ptr, null}
use cyb_os.Sched.TaskList.Chain.{Returns, has}
use cyb_os.Sched.Signal.{handle_pending_signals}
use cyb_os.Sched.Signal.Pending.{handle_pending_signals-lowest}
use cyb_os.Sched.Tick.{global_task_administration}
use cyb_os.Sched.Tick.Alarm.{ticked, global_task_administration-ticked}
use cyb_os.Sched.WaitQueue.{sched_wakeup}
use cyb_os.Sched.WaitQueue.Wakeup.{waked, sched_wakeup-runnable}
use cyb_os.Tests.Tasks.{kernel, kernel-IsTaskList}

handle_pending_signals-lowest_example :
    (i : ℕ) × (bit 24 i ≡ 1)
    × ((j : ℕ) → j < i → bit 24 j ≡ 0)
    × Returns
        (λ _ s'.
          ((j : ℕ) → j < 32 → bit (s'.mem 32).signal j ≡ (if i == j then 0 else bit 24 j))
          × ((p : Ptr) → p ≢ 32 → s'.mem p ≡ (kernel 24 2 2).mem p)
          × (s'.ints ≡ true))
        (handle_pending_signals (kernel 24 2 2))
handle_pending_signals-lowest_example =
    handle_pending_signals-lowest (kernel 24 2 2) (omega arith) (omega arith) (omega arith)

global_task_administration-ticked_example :
    Returns
      (λ _ s'.
        ((p : Ptr)
          → s'.mem p ≡ (
              if has p (16 ∷ 32 ∷ 48 ∷ [])
              then ticked ((kernel 0 2 2).mem p)
              else (kernel 0 2 2).mem p))
        × (s' ≡ record (kernel 0 2 2) { mem = s'.mem }))
      (global_task_administration 4 (kernel 0 2 2))
global_task_administration-ticked_example =
    global_task_administration-ticked 4 (kernel 0 2 2) (16 ∷ 32 ∷ 48 ∷ []) (kernel-IsTaskList 0 2 2)
      (omega arith)

sched_wakeup-runnable_example :
    Returns
      (λ queue' s'.
        (queue' ≡ 0 ∷ 0 ∷ 0 ∷ [])
        × ((p : Ptr)
            → s'.mem p ≡ (
                if has p (0 ∷ 48 ∷ 0 ∷ []) && not (p == null)
                then waked ((kernel 0 2 2).mem p)
                else (kernel 0 2 2).mem p))
        × (s' ≡ record (kernel 0 2 2) { mem = s'.mem }))
      (sched_wakeup (0 ∷ 48 ∷ 0 ∷ []) (kernel 0 2 2))
sched_wakeup-runnable_example = sched_wakeup-runnable (0 ∷ 48 ∷ 0 ∷ []) (kernel 0 2 2)
