-- ===== src/Sched/State.antt =====
-- The data of schedule.h and the globals of schedule.c, with the interrupt flag of idt.c.
use cyb_os.Prelude.{ℕ, Bool, true, false, List, ◌==◌, if◌then◌else◌}
use cyb_os.Prelude.Run.{ok, fault, Cmd}

abbrev pub Ptr : Type 0
Ptr = ℕ

abbrev pub null : Ptr
null = 0

-- The letters of TASK_STATE_*.
pub data TaskState : Type 0 where
  initialising runnable running interruptable uninterruptable zombie : TaskState

abbrev pub is_runnable : TaskState → Bool
is_runnable runnable = true
is_runnable _ = false

abbrev pub is_running : TaskState → Bool
is_running running = true
is_running _ = false

abbrev pub is_interruptable : TaskState → Bool
is_interruptable interruptable = true
is_interruptable _ = false

abbrev pub is_initialising : TaskState → Bool
is_initialising initialising = true
is_initialising _ = false

-- `task_t`. Numbers are bit patterns: `int` and `Uint32` of 32 digits, the times of 64.
pub record Task : Type 0 where
  pub prev : Ptr
  pub next : Ptr
  pub name : List ℕ
  pub console : Ptr
  pub state : TaskState
  pub priority : ℕ
  pub utime : ℕ
  pub ktime : ℕ
  pub kstack : Ptr
  pub ustack : Ptr
  pub context : Ptr
  pub page_directory : Ptr
  pub alarm : ℕ
  pub signal : ℕ
  pub exitcode : ℕ
  pub pid : ℕ
  pub ppid : ℕ

-- What lies on top of the kernel stack of a task that is not on the CPU: the registers that an
-- interrupt saved (a forked task before its first run), or a frame of `switch_task` with the value
-- of its variable `state`.
pub data Frame : Type 0 where
  first : Frame
  switched : Bool → Frame

-- The globals (with the two counters of timer.c), the memory that holds the tasks, the EAX of each
-- register block that an interrupt saved, and the CPU registers that the scheduler sets: the
-- interrupt flag, ESP, CR3 (the page directory that is loaded) and the ESP0 of the TSS.
pub record Kernel : Type 0 where
  pub mem : Ptr → Task
  pub task_list : Ptr
  pub idle_task : Ptr
  pub current_task : Ptr
  pub current_pid : ℕ
  pub kernel_ticks : ℕ
  pub schedule_ticks : ℕ
  pub saved_eax : Ptr → ℕ
  pub frame : Ptr → Frame
  pub ints : Bool
  pub esp : ℕ
  pub cr3 : Ptr
  pub esp0 : ℕ

abbrev pub pid_idle : ℕ
pid_idle = 0

abbrev pub max_pid : ℕ
max_pid = 65535

abbrev pub kernel_stack_size : ℕ
kernel_stack_size = 0x1200

abbrev pub write {ℓ} : {A : Type ℓ} → (Ptr → A) → Ptr → A → Ptr → A
write m p t a = if a == p then t else m a

-- `*p`, and `p->field = …`
unfoldable pub load : Ptr → Cmd Kernel Task
load p s = if p == null then fault else ok (s.mem p) s

unfoldable pub store : Ptr → (Task → Task) → Cmd Kernel (Unit {0})
store p f s = if p == null then fault else ok tt (record s { mem = write s.mem p (f (s.mem p)) })

abbrev pub disable_ints : Cmd Kernel Bool
disable_ints s = ok s.ints (record s { ints = false })

abbrev pub restore_ints : Bool → Cmd Kernel (Unit {0})
restore_ints was s = ok tt (if was then record s { ints = true } else s)
