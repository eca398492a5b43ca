-- ===== src/Machine/Service.antt =====
-- The service calls: `service_interrupt` of service.c.
use cyb_os.Prelude.{ℕ, ◌-◌, ◌%◌, ◌^◌, ◌==◌, if◌then◌else◌, Option, none, some, List}
use cyb_os.Prelude.Run.{Cmd, pure, ◌>>=◌, ◌>>◌, gets, return}
use cyb_os.Vfs.Types.{Name, Node, Drivers}
use cyb_os.Vfs.Dispatch.{FileOps}
use cyb_os.Sched.State.{load}
use cyb_os.Sched.Process.{sys_fork, sys_exit, sys_sleep, sys_idle, sys_getpid, sys_getppid}
use cyb_os.Console.State.{Console, at_console, unless_null}
use cyb_os.Console.Print.{con_putch}
use cyb_os.Console.Screen.{con_flush}
use cyb_os.Console.Output.{sys_console}
use cyb_os.Elf.Loader.{sys_execve}
use cyb_os.Machine.State.{Machine, on_kernel, on_console, on_loader}

-- The registers that a service call reads.
pub record Regs : Type 0 where
  pub eax : ℕ
  pub ebx : ℕ
  pub ecx : ℕ
  pub edx : ℕ

-- What the calls take from elsewhere: fresh memory, the clone of the page directory, where the registers lie, what
-- uninitialised memory holds, and the size of the screen.
pub record Outside : Type 0 where
  pub child : ℕ
  pub kstack : ℕ
  pub pagedir : ℕ
  pub r : ℕ
  pub console : ℕ
  pub console_garbage : Console
  pub columns : ℕ
  pub rows : ℕ
  pub node_garbage : Node
  pub stack : List ℕ

-- The value that is returned in `eax`, and the new `eip` where the call sets one.
pub record ServiceAnswer : Type 0 where
  pub retval : ℕ
  pub eip : Option ℕ

abbrev pub answer : ℕ → ServiceAnswer
answer retval = record { retval = retval; eip = none }

abbrev pub sys_null : ℕ
sys_null = 0

module _ {S : Type 0} where
  unfoldable pub sys_conflush : Cmd (Machine S) ℕ
  unfolding con_flush load
  sys_conflush = do
    current_task ← gets (λ s. s.kernel.current_task)
    t ← on_kernel (load current_task)
    on_console (con_flush t.console) >>= λ _. return
    pure 0

  unfoldable pub sys_conwrite : (ch autoflush : ℕ) → Cmd (Machine S) ℕ
  unfolding con_putch load sys_conflush
  sys_conwrite ch autoflush = do
    current_task ← gets (λ s. s.kernel.current_task)
    t ← on_kernel (load current_task)
    on_console (unless_null t.console (at_console t.console (con_putch ch))) >>= λ _. return
    if autoflush == 0 then return else (sys_conflush >>= λ _. return)
    pure 0

  module _ (drivers : Drivers) (ops : ℕ → FileOps S) (rounds fuel directory : ℕ) (text : ℕ → Name)
      (outside : Outside) where
    -- `text` is the string at an address.
    unfoldable pub service_interrupt : Regs → Cmd (Machine S) ServiceAnswer
    unfolding sys_conwrite sys_conflush sys_console sys_fork sys_exit sys_sleep sys_idle sys_getpid
        sys_getppid sys_execve
    service_interrupt r =
        let service = r.eax % 2 ^ 16 in
        let plain = λ (m : Cmd (Machine S) ℕ).
          let c : Cmd (Machine S) ServiceAnswer = (m >>= λ v. pure (answer v)) in c in
        if service == 1
        then (do
          made ← on_console (
              sys_console fuel r.ebx r.ecx (text r.edx) outside.console outside.console_garbage
                outside.columns outside.rows)
          pure (answer (elim made [ none ↦ 2 ^ 32 - 1 | some v ↦ v ])))
        else if service == 2
        then plain (sys_conwrite (r.ebx % 2 ^ 8) r.ecx)
        else if service == 4
        then plain sys_conflush
        else if service == 10
        then plain (
            on_kernel (sys_fork rounds fuel outside.child outside.kstack outside.pagedir outside.r))
        else if service == 12
        then plain (on_kernel sys_getpid)
        else if service == 13
        then plain (on_kernel sys_getppid)
        else if service == 11
        then plain (on_kernel (sys_sleep fuel r.ebx))
        else if service == 14
        then plain (on_kernel sys_idle)
        else if service == 15
        then plain (on_kernel (sys_exit fuel r.ebx))
        else if service == 17
        then (do
          (retval, eip) ← on_loader (
              sys_execve drivers ops fuel directory outside.node_garbage outside.stack (text r.ebx))
          pure (record { retval = retval; eip = eip }))
        else pure (answer sys_null)
