-- ===== src/Machine/State.antt =====
-- The states of the parts, side by side, and calls of one part.
use cyb_os.Prelude.Run.{ok, fault, panic, out_of_fuel, Cmd}
use cyb_os.Port.{Io}
use cyb_os.Sched.State.{Kernel}
use cyb_os.Sched.WaitQueue.{WaitQueue}
use cyb_os.Console.State.{Terminal}
use cyb_os.Keyboard.Interrupt.{Keyboard}
use cyb_os.Floppy.State.{Floppy}
use cyb_os.Elf.Loader.{Loader}

-- The consoles are in the state of the keyboard. `fdc_wait_queue` has the tasks that wait for the floppy.
pub record Machine (S : Type 0) : Type 0 where
  pub kernel : Kernel
  pub keyboard : Keyboard
  pub floppy : Io Floppy
  pub fdc_wait_queue : WaitQueue
  pub loader : Loader S

-- Code of a part, run on the whole.
abbrev pub lift : {M B A : Type 0} → (get : M → B) → (put : B → M → M) → Cmd B A → Cmd M A
lift get put m s = elim (m (get s)) [
  | ok a b ↦ ok a (put b s)
  | fault ↦ fault
  | panic ↦ panic
  | out_of_fuel ↦ out_of_fuel
]

module _ {S A : Type 0} where
  abbrev pub on_kernel : Cmd Kernel A → Cmd (Machine S) A
  on_kernel = lift (λ s. s.kernel) (λ k s. record s { kernel = k })

  abbrev pub on_keyboard : Cmd Keyboard A → Cmd (Machine S) A
  on_keyboard = lift (λ s. s.keyboard) (λ k s. record s { keyboard = k })

  abbrev pub on_console : Cmd Terminal A → Cmd (Machine S) A
  on_console =
      lift (λ s. s.keyboard.terminal)
        (λ t s. record s { keyboard = record s.keyboard { terminal = t } })

  abbrev pub on_floppy : Cmd (Io Floppy) A → Cmd (Machine S) A
  on_floppy = lift (λ s. s.floppy) (λ f s. record s { floppy = f })

  abbrev pub on_loader : Cmd (Loader S) A → Cmd (Machine S) A
  on_loader = lift (λ s. s.loader) (λ l s. record s { loader = l })
