-- ===== src/Machine/Irq.antt =====
-- Interrupts and exceptions, and the printing on the kernel's console: idt.c and kernel.c.
use cyb_os.Prelude.{
  ℕ, ◌%◌, ◌==◌, ◌||◌, not, Bool, false, if◌then◌else◌, none, some, List, [], ◌∷◌, ltb,
}
use cyb_os.Prelude.Run.{fault, panic, Cmd, pure, ◌>>=◌, ◌>>◌, gets, modify, return}
use cyb_os.Port.{outb}
use cyb_os.Sched.State.{load}
use cyb_os.Sched.Switch.{reschedule}
use cyb_os.Sched.Tick.{timer_interrupt}
use cyb_os.Sched.WaitQueue.{sched_wakeup}
use cyb_os.Console.State.{console_at, at_console, unless_null}
use cyb_os.Console.Print.{con_putch}
use cyb_os.Console.Screen.{con_flush}
use cyb_os.Keyboard.Interrupt.{keyboard_interrupt}
use cyb_os.Klib.Printf.{Arg, do_printf}
use cyb_os.Floppy.Command.{floppy_interrupt}
use cyb_os.Machine.State.{Machine, on_kernel, on_keyboard, on_console, on_floppy}

module _ {S : Type 0} where
  -- `floppy_interrupt` whole: the flag, and the tasks that wait.
  unfoldable pub floppy_irq : Cmd (Machine S) Bool
  unfolding floppy_interrupt sched_wakeup
  floppy_irq = do
    again ← on_floppy floppy_interrupt
    current_task ← gets (λ s. s.kernel.current_task)
    queue ← gets (λ s. s.fdc_wait_queue)
    if current_task == 0 then return else (do
      empty ← on_kernel (sched_wakeup queue)
      modify (λ s. record s { fdc_wait_queue = empty }))
    pure again

  -- `code` is the byte of the keyboard's port; the interrupts without a handler ask for nothing.
  unfoldable pub handler : (fuel kconsole code int_no cs : ℕ) → Cmd (Machine S) Bool
  unfolding timer_interrupt keyboard_interrupt floppy_irq
  handler fuel kconsole code int_no cs =
      if int_no == 0
      then on_kernel (timer_interrupt fuel (cs % 4))
      else if int_no == 1
      then (do again ← on_keyboard (keyboard_interrupt kconsole code); pure (not (again == 0)))
      else if int_no == 6
      then floppy_irq
      else pure false

  -- Both controllers are acknowledged before another task may run.
  unfoldable pub do_handle_irq : (fuel kconsole code int_no cs : ℕ) → Cmd (Machine S) (Unit {0})
  unfolding handler outb reschedule
  do_handle_irq fuel kconsole code int_no cs = do
    rescheduling ← handler fuel kconsole code int_no cs
    on_floppy (outb 32 32)
    on_floppy (outb 160 32)
    if rescheduling then on_kernel (reschedule fuel) else return

  -- A division by zero panics, a protection or a page fault stops the system, and so does a number above 32. The
  -- registers that are printed are left out.
  unfoldable pub do_handle_exception : (int_no : ℕ) → Cmd (Machine S) (Unit {0})
  do_handle_exception int_no =
      if int_no == 0 || (int_no == 13 || (int_no == 14 || ltb 32 int_no))
      then (λ _. panic)
      else return

  -- A character goes to the kernel's console, and to that of the current task when it is another one.
  unfoldable pub kprintf_helper : (kconsole c : ℕ) → Cmd (Machine S) (Unit {0})
  unfolding con_putch load
  kprintf_helper kconsole c = do
    on_console (unless_null kconsole (at_console kconsole (con_putch c))) >>= λ _. return
    current_task ← gets (λ s. s.kernel.current_task)
    if current_task == 0 then return else (do
      t ← on_kernel (load current_task)
      console ← on_console (console_at t.console)
      if console.index == 0
          then return
          else (on_console (at_console t.console (con_putch c)) >>= λ _. return))

  unfoldable pub kprint : (kconsole : ℕ) → List ℕ → Cmd (Machine S) (Unit {0})
  unfolding kprintf_helper
  kprint kconsole [] = return
  kprint kconsole (c ∷ out) = do kprintf_helper kconsole c; kprint kconsole out

  -- `kflush` is the variable `_kflush`.
  unfoldable pub kprintf :
      (kconsole : ℕ) → (kflush : Bool) → List ℕ → List Arg → Cmd (Machine S) (Unit {0})
  unfolding kprint con_flush do_printf
  kprintf kconsole kflush fmt args = elim (do_printf fmt args) [
    | none ↦ λ _. fault
    | some out ↦ do
      kprint kconsole out
      if kflush then (on_console (con_flush kconsole) >>= λ _. return) else return
  ]
