-- ===== src/Console/State.antt =====
-- The record of console.h, and what conio.c and the console switch of keyboard.c share.
use cyb_os.Prelude.{ℕ, Bool, List, ◌==◌, if◌then◌else◌}
use cyb_os.Prelude.Run.{ok, fault, panic, out_of_fuel, Cmd, pure}

-- The codes of errors.h. They are negative as an `int`, so they stand as constructors.
pub data Code : Type 0 where
  err_ok : Code
  err_error : Code
  err_con_invalid_console : Code

-- `CON_FLUSHMODE_...`
abbrev pub no_flush : ℕ
no_flush = 0

abbrev pub partial_flush : ℕ
partial_flush = 1

abbrev pub wholescreen_flush : ℕ
wholescreen_flush = 2

-- `console_t`. `next` and `prev` are addresses, 0 is NULL. Left out: `screenmode`, which
-- nothing uses.
pub record Console : Type 0 where
  pub index : ℕ
  pub next : ℕ
  pub prev : ℕ
  pub name : List ℕ
  pub palette : List ℕ
  pub flush : ℕ
  pub block_s_x : ℕ
  pub block_s_y : ℕ
  pub block_e_x : ℕ
  pub block_e_y : ℕ
  pub attr : ℕ
  pub opx : ℕ
  pub opy : ℕ
  pub px : ℕ
  pub py : ℕ
  pub max_px : ℕ
  pub max_py : ℕ
  pub size : ℕ
  pub buf : List ℕ

-- The consoles in memory and their list, what the video card holds, and the bar of the console switch.
pub record Terminal : Type 0 where
  pub consoles : ℕ → Console
  pub console_list : ℕ
  pub current_console : ℕ
  pub default_palette : List ℕ
  pub video : List ℕ
  pub vga_palette : List ℕ
  pub vga_cursor : ℕ
  pub in_console_switch : Bool
  pub ctrltab_console : ℕ
  pub ctrltab_bar : List ℕ

-- `*console = c`, for a console that is not NULL.
abbrev pub put_console : ℕ → Console → Terminal → Terminal
put_console console c t = record t { consoles = λ p. if p == console then c else t.consoles p }

-- `console->...`
abbrev pub console_at : ℕ → Cmd Terminal Console
console_at console t = if console == 0 then fault else ok (t.consoles console) t

-- Code that works on one console, run on the console at an address.
abbrev pub at_console : {A : Type 0} → ℕ → Cmd Console A → Cmd Terminal A
at_console console m t = elim (m (t.consoles console)) [
  | ok a c ↦ ok a (put_console console c t)
  | fault ↦ fault
  | panic ↦ panic
  | out_of_fuel ↦ out_of_fuel
]

-- `if (console == NULL) return ERR_CON_INVALID_CONSOLE;`
abbrev pub unless_null : ℕ → Cmd Terminal Code → Cmd Terminal Code
unless_null console m = if console == 0 then pure err_con_invalid_console else m
