-- ===== src/Console/Output.antt =====
-- Formatted output on a console, `con_printf` of conio.c, and `sys_console` of console.c.
use cyb_os.Prelude.{ℕ, List, [], ◌∷◌, Option, none, some, ◌==◌, if◌then◌else◌}
use cyb_os.Prelude.Run.{fault, Cmd, pure, ◌>>=◌, ◌>>◌, return}
use cyb_os.Console.State.{Console, Terminal, Code, err_ok, at_console, unless_null}
use cyb_os.Console.Print.{con_putch}
use cyb_os.Console.List.{create_console, destroy_console}
use cyb_os.Console.Screen.{con_flush}
use cyb_os.Klib.Printf.{Arg, do_printf}

-- `con_printf_helper`, for one character after another. Its result is not used.
unfoldable pub con_print : List ℕ → Cmd Console (Unit {0})
unfolding con_putch
con_print [] = return
con_print (ch ∷ out) = do con_putch ch >>= λ _. return; con_print out

unfoldable pub con_printf : (console : ℕ) → List ℕ → List Arg → Cmd Terminal Code
unfolding con_print con_flush do_printf
con_printf console fmt args = unless_null console (elim (do_printf fmt args) [
  | none ↦ λ _. fault
  | some out ↦ do at_console console (con_print out); con_flush console >>= λ _. return; pure err_ok
])

abbrev pub sys_console_create : ℕ
sys_console_create = 0

abbrev pub sys_console_destroy : ℕ
sys_console_destroy = 1

-- What the call gives back: the address of a console, or a code, of which -1 is `none`.
unfoldable pub sys_console :
    ℕ
    → (subcommand console : ℕ) → List ℕ
    → (fresh : ℕ) → (garbage : Console) → (columns rows : ℕ) → Cmd Terminal (Option ℕ)
unfolding create_console destroy_console
sys_console fuel subcommand console name fresh garbage columns rows =
    if subcommand == sys_console_create
    then (do made ← create_console fuel fresh garbage name columns rows; pure (some made))
    else if subcommand == sys_console_destroy
    then (do destroy_console console >>= λ _. return; pure (some 1))
    else pure none
