-- ===== src/Sched/Switch/Choice.antt =====
-- Which task `switch_task` makes the current one, and in what state it leaves the tasks and the CPU.
use cyb_os.Prelude.{
  ℕ, ◌+◌, ◌%◌, ◌^◌, ◌<◌, ◌≡◌, refl, sym, ◌≢◌, Bool, true, false, List, [], ◌∷◌, ◌++◌, arith, ◌==◌,
  if◌then◌else◌, ◌&&◌, not, length, Bool-cases, inl, inr,
}
use cyb_os.Prelude.Run.{ok}
use cyb_os.Sched.State.{
  Ptr, null, runnable, running, Task, Frame, Kernel, pid_idle, kernel_stack_size, write, load,
  store, is_running,
}
use cyb_os.Sched.TaskList.{get_next_runnable_task}
use cyb_os.Sched.TaskList.Chain.{Returns, Chain, IsTaskList, Chain-links}
use cyb_os.Sched.TaskList.Pick.{pick, get_next_runnable_task-pick}
use cyb_os.Sched.Switch.{resume, stop_running, switch_task}

-- The task that leaves the CPU is runnable again, unless it sleeps.
abbrev pub stopped : (Ptr → Task) → Ptr → Ptr → Task
stopped m cur =
    if is_running (m cur).state then write m cur (record (m cur) { state = runnable }) else m

abbrev pub off_cpu : Kernel → Ptr → Kernel
off_cpu s cur = record s { ints = false; mem = stopped s.mem cur }

abbrev pub started : (Ptr → Task) → Ptr → Ptr → Task
started m next =
    if (m next).pid == pid_idle then m else write m next (record (m next) { state = running })

-- The state in which the CPU runs on the stack of `next`.
abbrev pub on_cpu : Kernel → (cur next : Ptr) → Kernel
on_cpu s cur next =
    let m : Ptr → Task = started (stopped s.mem cur) next in
    let g : Ptr → Task = write m cur (record (m cur) { context = s.esp }) in
    record s {
      mem = g;
      esp0 = ((stopped s.mem cur next).kstack + kernel_stack_size) % 2 ^ 32;
      cr3 = (stopped s.mem cur next).page_directory;
      current_task = next;
      frame = write s.frame cur (Frame.switched s.ints);
      esp = (g next).context;
      ints = false;
    }

stop_running_lem :
    (s : Kernel) (cur : Ptr)
    → cur ≢ null
    → stop_running cur s ≡ ok tt (record s { mem = stopped s.mem cur })
unfolding stop_running load store
stop_running_lem s cur ne = ground arith

module _ (fuel : ℕ) (s : Kernel) (cur found : Ptr) (is : s.current_task ≡ cur) (ne : cur ≢ null)
    (calm : (s.mem cur).signal ≡ 0)
    (search_end : get_next_runnable_task fuel cur (off_cpu s cur) ≡ ok found (off_cpu s cur)) where
  switch_task_stay :
      (if found == null then s.idle_task else found) ≡ cur
      → switch_task fuel s ≡ ok true (record s { mem = stopped s.mem cur })
  unfolding switch_task load store
  switch_task_stay e = ground (arith, stop_running_lem (record s { ints = false }) cur ne)

  switch_task_move :
      (next : Ptr)
      → (if found == null then s.idle_task else found) ≡ next
      → next ≢ null
      → cur ≢ next
      → switch_task fuel s ≡ resume ((on_cpu s cur next).frame next) (on_cpu s cur next)
  unfolding switch_task load store
  switch_task_move next e nn apart =
      ground (arith, stop_running_lem (record s { ints = false }) cur ne)

-- No task but the current one is in the state RUNNING.
abbrev pub OnlyCurrentRuns : Kernel → Type 0
OnlyCurrentRuns s = (p : Ptr) → is_running (s.mem p).state ≡ true → p ≡ s.current_task

-- What `switch_task` has done when the CPU is on the stack of `next`.
pub record Switched (s : Kernel) (next : Ptr) (s' : Kernel) : Type 0 where
  pub current : s'.current_task ≡ next
  pub only : OnlyCurrentRuns s'
  pub states :
      (p : Ptr)
      → (s'.mem p).state ≡ (
          if p == next && (not (next == s.current_task) && not ((s.mem next).pid == pid_idle))
          then running
          else if p == s.current_task && is_running (s.mem p).state
          then runnable
          else (s.mem p).state)
  pub links : (p : Ptr) → ((s'.mem p).prev ≡ (s.mem p).prev) × ((s'.mem p).next ≡ (s.mem p).next)
  pub pids : (p : Ptr) → (s'.mem p).pid ≡ (s.mem p).pid
  pub cpu :
      next ≢ s.current_task
      → (s'.cr3 ≡ (s.mem next).page_directory)
        × (s'.esp0 ≡ ((s.mem next).kstack + kernel_stack_size) % 2 ^ 32)
        × (s'.esp ≡ (s.mem next).context)
        × ((s'.mem s.current_task).context ≡ s.esp)

stay-Switched :
    (s : Kernel) (cur : Ptr)
    → s.current_task ≡ cur
    → OnlyCurrentRuns s
    → Switched s cur (record s { mem = stopped s.mem cur })
stay-Switched s cur is only = record {
  current = is;
  only = λ p h. ground (arith, only p);
  states = λ p. ground arith;
  links = λ p. ground arith;
  pids = λ p. ground arith;
  cpu = λ e. absurd (e (sym is));
}

move-Switched :
    (s : Kernel) (cur next : Ptr) (b : Bool)
    → s.current_task ≡ cur
    → OnlyCurrentRuns s
    → (next == cur) ≡ false
    → Switched s next (record (on_cpu s cur next) { ints = b })
move-Switched s cur next b is only apart = record {
  current = refl;
  only = λ p h. ground (arith, only p);
  states = λ p. ground arith;
  links = λ p. ground arith;
  pids = λ p. ground arith;
  cpu = λ e. ground arith;
}

resume-Switched :
    (s : Kernel) (cur next : Ptr) (f : Frame)
    → s.current_task ≡ cur
    → OnlyCurrentRuns s
    → (next == cur) ≡ false
    → Returns (λ _ s'. Switched s next s') (resume f (on_cpu s cur next))
unfolding resume
resume-Switched s cur next Frame.first is only apart = move-Switched s cur next true is only apart
resume-Switched s cur next (Frame.switched true) is only apart =
    move-Switched s cur next true is only apart
resume-Switched s cur next (Frame.switched false) is only apart =
    move-Switched s cur next false is only apart

off_cpu-IsTaskList :
    (s : Kernel) (cur : Ptr) (xs : List Ptr) → IsTaskList s xs → IsTaskList (off_cpu s cur) xs
off_cpu-IsTaskList s cur xs is = record {
  head = is.head;
  chain = Chain-links s.mem (stopped s.mem cur) null xs (λ p. ground arith) is.chain;
}

-- The task that `switch_task` chooses among `l ++ (cur ∷ r)`: the first ready one behind the current
-- task, round the list and at last that task itself if it was running, and else the idle task.
abbrev pub chosen : Kernel → (l : List Ptr) (cur : Ptr) (r : List Ptr) → Ptr
chosen s l cur r =
    let found = pick (stopped s.mem cur) (r ++ (l ++ (cur ∷ []))) in
    if found == null then s.idle_task else found

cur-ne-null :
    (m : Ptr → Task) (prev cur : Ptr) (l r : List Ptr) → Chain m prev (l ++ (cur ∷ r)) → cur ≢ null
cur-ne-null m prev cur [] r c = c.0
cur-ne-null m prev cur (a ∷ l) r c = cur-ne-null m a cur l r c.4

-- On a well-formed list of several tasks, with an idle task that is not NULL, no signal pending for the current task, no
-- other task RUNNING, and enough rounds for the walk: `switch_task` comes to its end and makes the chosen task the
-- current one. No other task is RUNNING after. A chosen task that is another one than before is RUNNING, unless it has the
-- pid of the idle task, which keeps its state; the old task, if it was RUNNING, is RUNNABLE, also if it stays the current
-- one; and every other task keeps its state. The list and the pids stay as they are; and if the chosen task is
-- another one, the CPU has its page directory, kernel stack and saved stack pointer, and the old task's context
-- holds the old stack pointer.
pub switch_task-Switched :
    (fuel : ℕ) (s : Kernel) (l : List Ptr) (cur : Ptr) (r : List Ptr)
    → IsTaskList s (l ++ (cur ∷ r))
    → 0 < length (r ++ l)
    → length (r ++ l) < fuel
    → s.current_task ≡ cur
    → (s.mem cur).signal ≡ 0
    → s.idle_task ≢ null
    → OnlyCurrentRuns s
    → Returns (λ _ s'. Switched s (chosen s l cur r) s') (switch_task fuel s)
switch_task-Switched fuel s l cur r is many enough at calm idle only =
    let ne = cur-ne-null s.mem null cur l r is.chain in
    let found : Ptr = pick (stopped s.mem cur) (r ++ (l ++ (cur ∷ []))) in
    let search_end : get_next_runnable_task fuel cur (off_cpu s cur) ≡ ok found (off_cpu s cur) =
      get_next_runnable_task-pick fuel (off_cpu s cur) l cur r
        (off_cpu-IsTaskList s cur (l ++ (cur ∷ r)) is) many enough in
    elim (Bool-cases (cur == chosen s l cur r)) [
      | inl stay ↦
          let e : chosen s l cur r ≡ cur = ground arith in
          rw (switch_task_stay fuel s cur found at ne calm search_end e, e)
            (stay-Switched s cur at only)
      | inr move ↦
          rw
            (switch_task_move fuel s cur found at ne calm search_end (chosen s l cur r) refl
              (ground arith) (ground arith))
            (resume-Switched s cur (chosen s l cur r) _ at only (ground arith))
    ]
