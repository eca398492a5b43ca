-- ===== src/Sched/WaitQueue.antt =====
-- Wait queues: `waitqueue_t` of schedule.h, and the operations of schedule.c on it.
pub mod Wakeup
use cyb_os.Prelude.{
  ℕ, zero, suc, ◌+◌, List, [], ◌∷◌, ◌==◌, if◌then◌else◌, Option, none, some, replicate, set,
}
use cyb_os.Prelude.Run.{panic, Cmd, pure, ◌>>=◌, ◌>>◌, gets}
use cyb_os.Sched.State.{Ptr, null, runnable, interruptable, Kernel, store}
use cyb_os.Sched.Switch.{reschedule}

abbrev pub max_waitqueue_tasks : ℕ
max_waitqueue_tasks = 10

-- The slots; `count` is their number.
abbrev pub WaitQueue : Type 0
WaitQueue = List Ptr

unfoldable pub sched_init_waitqueue : WaitQueue
sched_init_waitqueue = replicate max_waitqueue_tasks null

unfoldable pub sched_wakeup : WaitQueue → Cmd Kernel WaitQueue
sched_wakeup [] = pure []
sched_wakeup (p ∷ queue) = do
  (if p == null then (λ s. pure tt s) else store p (λ t. record t { state = runnable }))
  rest ← sched_wakeup queue
  pure (null ∷ rest)

-- The first empty slot.
unfoldable pub empty_slot : WaitQueue → Option ℕ
empty_slot [] = none
empty_slot (p ∷ queue) =
    if p == null then some 0 else elim (empty_slot queue) [ none ↦ none | some i ↦ some (suc i) ]

unfoldable pub sched_interruptable_sleep : ℕ → WaitQueue → Cmd Kernel WaitQueue
sched_interruptable_sleep fuel queue = elim (empty_slot queue) [
  | none ↦ λ _. panic
  | some i ↦ do
    cur ← gets (λ s. s.current_task)
    store cur (λ t. record t { state = interruptable })
    reschedule fuel
    pure (set queue i cur)
]
