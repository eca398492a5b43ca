-- ===== src/Sched/Process/Fork.antt =====
-- `sys_fork` makes a child that differs from its parent where it must.
use cyb_os.Prelude.{ℕ, ◌≡◌, ◌≢◌, false, List}
use cyb_os.Sched.State.{Ptr, runnable, Task, Frame, Kernel, write}
use cyb_os.Sched.TaskList.Chain.{IsTaskList}
use cyb_os.Sched.Process.{child_context}

-- What the child is when the fork is done.
pub record IsChildOf (s : Kernel) (kstack pagedir r pid : ℕ) (child : Ptr) (s' : Kernel)
    : Type 0 where
  pub own_pid : (s'.mem child).pid ≡ pid
  pub parent : (s'.mem child).ppid ≡ (s.mem s.current_task).pid
  pub state : (s'.mem child).state ≡ runnable
  pub pages : (s'.mem child).page_directory ≡ pagedir
  pub stack : (s'.mem child).kstack ≡ kstack
  pub times : ((s'.mem child).ktime ≡ 0) × ((s'.mem child).utime ≡ 0)
  pub context : (s'.mem child).context ≡ child_context kstack (s.mem s.current_task).kstack r
  pub returns_zero : s'.saved_eax (s'.mem child).context ≡ 0
  pub unstarted : s'.frame child ≡ Frame.first
  pub others : (p : Ptr) → p ≢ child → (s'.mem p).pid ≡ (s.mem p).pid

-- The child before it has a pid, and when it is put into the list.
abbrev copied : Kernel → Ptr → ℕ → Kernel
copied s child pagedir = record s {
  ints = false;
  mem =
      write (write s.mem child (s.mem s.current_task)) child
        (record (s.mem s.current_task) { page_directory = pagedir });
}

abbrev made : Kernel → (child kstack pagedir r pid : ℕ) → Kernel
made s child kstack pagedir r pid =
    let p = s.mem s.current_task in
    let c = copied s child pagedir in
    record c {
      current_pid = pid;
      mem = write c.mem child (record (c.mem child) {
        pid = pid;
        ppid = p.pid;
        ktime = 0;
        utime = 0;
        kstack = kstack;
        context = child_context kstack p.kstack r;
      });
      saved_eax = write s.saved_eax (child_context kstack p.kstack r) 0;
      frame = write s.frame child Frame.first;
    }

-- What `sched_add_task` leaves of a state.
abbrev Same : Kernel → List Ptr → Kernel → Type 0
Same t xs s' =
    IsTaskList s' xs
    × ((p : Ptr) → s'.mem p ≡ record (t.mem p) { prev = (s'.mem p).prev; next = (s'.mem p).next })
    × (s' ≡ record t { mem = s'.mem; task_list = s'.task_list; idle_task = s'.idle_task })

-- The child when it is put into the list.
abbrev newborn : Kernel → (kstack pagedir r pid : ℕ) → Task
newborn s kstack pagedir r pid =
    let p = s.mem s.current_task in
    record p {
      page_directory = pagedir;
      pid = pid;
      ppid = p.pid;
      ktime = 0;
      utime = 0;
      kstack = kstack;
      context = child_context kstack p.kstack r;
    }
