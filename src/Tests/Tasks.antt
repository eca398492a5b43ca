-- ===== src/Tests/Tasks.antt =====
-- Three tasks: the idle task, the running one and one that waits its turn; and the theorems on the task list there.
use cyb_os.Prelude.{
  ℕ, suc, ◌+◌, ◌*◌, ◌^◌, ◌≤◌, ◌≡◌, refl, true, false, [], ◌∷◌, arith, ◌==◌, if◌then◌else◌, inl,
}
use cyb_os.Prelude.Run.{ok}
use cyb_os.Sched.State.{Ptr, TaskState, runnable, running, Task, Frame, Kernel, max_pid}
use cyb_os.Sched.TaskList.{sched_add_task, sched_remove_task, get_next_runnable_task}
use cyb_os.Sched.TaskList.Chain.{Returns, IsTaskList}
use cyb_os.Sched.TaskList.Add.{sched_add_task-IsTaskList}
use cyb_os.Sched.TaskList.Remove.{sched_remove_task-IsTaskList}
use cyb_os.Sched.TaskList.Pick.{get_next_runnable_task-pick}
use cyb_os.Sched.TaskList.Fair.{turns, turns-reaches}
use cyb_os.Sched.Switch.{switch_task}
use cyb_os.Sched.Switch.Choice.{Switched, switch_task-Switched}
use cyb_os.Sched.Pid.{allocate_new_pid, next_pid}
use cyb_os.Sched.Pid.Unused.{used, allocate_new_pid-unused, allocate_new_pid-clash}

abbrev pub task : (prev next pid signal : ℕ) → TaskState → Task
task prev next pid signal state = record {
  prev = prev;
  next = next;
  name = [];
  console = 0;
  state = state;
  priority = 0;
  utime = 0;
  ktime = 0;
  kstack = pid * 2 ^ 16;
  ustack = 0;
  context = pid * 2 ^ 16 + 40;
  page_directory = pid;
  alarm = 1;
  signal = signal;
  exitcode = 0;
  pid = pid;
  ppid = 1;
}

abbrev pub three_tasks : (signal pid : ℕ) → Ptr → Task
three_tasks signal pid p =
    if p == 16
    then task 0 32 0 0 runnable
    else if p == 32
    then task 16 48 1 signal running
    else if p == 48
    then task 32 0 pid 0 runnable
    else task 0 0 99 0 TaskState.zombie

abbrev pub kernel : (signal last_pid current_pid : ℕ) → Kernel
kernel signal last_pid current_pid = record {
  mem = three_tasks signal last_pid;
  task_list = 16;
  idle_task = 16;
  current_task = 32;
  current_pid = current_pid;
  kernel_ticks = 7;
  schedule_ticks = 1;
  saved_eax = λ _. 5;
  frame = λ _. Frame.first;
  ints = true;
  esp = 2 ^ 16 + 100;
  cr3 = 1;
  esp0 = 0;
}

pub kernel-IsTaskList :
    (signal last_pid current_pid : ℕ)
    → IsTaskList (kernel signal last_pid current_pid) (16 ∷ 32 ∷ 48 ∷ [])
kernel-IsTaskList signal last_pid current_pid = record {
  head = refl;
  chain = (
    omega arith,
    refl,
    refl,
    refl,
    (omega arith, refl, refl, refl, (omega arith, refl, refl, refl, tt)),
  );
}

sched_add_task-IsTaskList_example :
    Returns
      (λ _ s'.
        IsTaskList s' (16 ∷ 32 ∷ 48 ∷ 64 ∷ [])
        × ((p : Ptr)
            → s'.mem p
              ≡ record ((kernel 0 2 2).mem p) { prev = (s'.mem p).prev; next = (s'.mem p).next })
        × (s'.idle_task ≡ (kernel 0 2 2).idle_task)
        × (s' ≡ record (kernel 0 2 2) {
          mem = s'.mem;
          task_list = s'.task_list;
          idle_task = s'.idle_task;
        }))
      (sched_add_task 3 64 (kernel 0 2 2))
sched_add_task-IsTaskList_example =
    sched_add_task-IsTaskList 3 (kernel 0 2 2) (16 ∷ 32 ∷ 48 ∷ []) 64 (kernel-IsTaskList 0 2 2) refl
      (omega arith) (omega arith)

sched_remove_task-IsTaskList_example :
    Returns
      (λ _ s'.
        IsTaskList s' (16 ∷ 48 ∷ [])
        × ((p : Ptr)
            → s'.mem p
              ≡ record ((kernel 0 2 2).mem p) { prev = (s'.mem p).prev; next = (s'.mem p).next })
        × (s' ≡ record (kernel 0 2 2) { mem = s'.mem }))
      (sched_remove_task 32 (kernel 0 2 2))
sched_remove_task-IsTaskList_example =
    sched_remove_task-IsTaskList (kernel 0 2 2) 16 32 [] (48 ∷ []) (kernel-IsTaskList 0 2 2)
      (omega arith)

-- A list whose first task is not the idle task.
abbrev two_tasks : Kernel
two_tasks = record (kernel 0 2 2) {
  mem = λ p. if p == 32 then task 0 48 1 0 running else task 32 0 2 0 runnable;
  task_list = 32;
}

two_tasks-IsTaskList : IsTaskList two_tasks (32 ∷ 48 ∷ [])
two_tasks-IsTaskList = record {
  head = refl;
  chain = (omega arith, refl, refl, refl, (omega arith, refl, refl, refl, tt));
}

get_next_runnable_task-pick_example :
    get_next_runnable_task 3 32 (kernel 0 2 2) ≡ ok 48 (kernel 0 2 2)
get_next_runnable_task-pick_example =
    get_next_runnable_task-pick 3 (kernel 0 2 2) (16 ∷ []) 32 (48 ∷ []) (kernel-IsTaskList 0 2 2)
      (omega arith) (omega arith)

switch_task-Switched_example :
    Returns (λ _ s'. Switched (kernel 0 2 2) 48 s') (switch_task 3 (kernel 0 2 2))
switch_task-Switched_example =
    switch_task-Switched 3 (kernel 0 2 2) (16 ∷ []) 32 (48 ∷ []) (kernel-IsTaskList 0 2 2)
      (omega arith) (omega arith) refl refl (omega arith) (λ p h. ground arith)

allocate_new_pid-unused_example :
    (pid : ℕ) × (pid ≤ max_pid)
    × (used (kernel 0 2 0).mem pid (16 ∷ 32 ∷ 48 ∷ []) ≡ false)
    × (allocate_new_pid 4 3 (kernel 0 2 0) ≡ ok pid (record (kernel 0 2 0) { current_pid = pid }))
unfolding next_pid
allocate_new_pid-unused_example =
    allocate_new_pid-unused 4 3 2 (kernel 0 2 0) 16 (32 ∷ 48 ∷ []) (kernel-IsTaskList 0 2 0)
      (omega arith) (inl (omega arith)) (omega arith) refl

allocate_new_pid-clash_example :
    Returns (λ pid s'. pid ≡ (s'.mem 48).pid) (allocate_new_pid 1 3 (kernel 0 3 2))
unfolding next_pid
allocate_new_pid-clash_example =
    allocate_new_pid-clash 1 3 (kernel 0 3 2) 16 (32 ∷ 48 ∷ []) (kernel-IsTaskList 0 3 2)
      (omega arith) (omega arith) refl refl

turns-reaches_example :
    (n : ℕ) × (n ≤ 2) × (turns 3 (suc n) 32 (kernel 0 2 2) ≡ ok 48 (kernel 0 2 2))
turns-reaches_example =
    turns-reaches 3 (kernel 0 2 2) (16 ∷ []) 32 (48 ∷ []) 48 (kernel-IsTaskList 0 2 2) (omega arith)
      (omega arith) refl refl
