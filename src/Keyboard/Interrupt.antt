-- ===== src/Keyboard/Interrupt.antt =====
-- The handler of IRQ 1: `keyboard_interrupt` of keyboard.c and the console switch.
use Prim.Native.Nat.{bit_and}
use cyb_os.Prelude.{
  ℕ, zero, suc, ◌+◌, ◌-◌, ◌*◌, ◌/◌, ◌%◌, Bool, true, false, ◌&&◌, ◌||◌, not, List, [], ◌∷◌, Option,
  none, some, get_elem?, set, ltb, ◌==◌, if◌then◌else◌,
}
use cyb_os.Prelude.Run.{ok, fault, panic, out_of_fuel, Cmd, pure, ◌>>=◌, ◌>>◌, gets, modify, return}
use cyb_os.Klib.Text.{strlen}
use cyb_os.Console.State.{Terminal, console_at, at_console, unless_null}
use cyb_os.Console.List.{get_next_console_in_list}
use cyb_os.Console.Screen.{con_flush, con_update_screen, switch_console}
use cyb_os.Console.Print.{con_plot}
use cyb_os.Keyboard.Keys.{scan2ascii_table}
use cyb_os.Keyboard.Buffer.{KeyBuffer, keyboard_stuffkey}

-- The flags of the shift keys, the leds, the buffer of keys, and the consoles.
pub record Keyboard : Type 0 where
  pub key_alt : Bool
  pub key_ctrl : Bool
  pub key_lshift : Bool
  pub key_rshift : Bool
  pub key_numlock : Bool
  pub key_capslock : Bool
  pub key_scrlock : Bool
  pub leds : ℕ
  pub keys : KeyBuffer
  pub terminal : Terminal

-- The flags at the start.
unfoldable pub keyboard_start : KeyBuffer → Terminal → Keyboard
keyboard_start keys terminal = record {
  key_alt = false;
  key_ctrl = false;
  key_lshift = false;
  key_rshift = false;
  key_numlock = true;
  key_capslock = false;
  key_scrlock = false;
  leds = 0;
  keys = keys;
  terminal = terminal;
}

-- A digit in base 16; `pos` is 1 for the low one.
unfoldable pub hex_digit : ℕ → ℕ
hex_digit i = if ltb 9 i then b'A' + (i - 10) else b'0' + i

unfoldable pub hex : (nr pos : ℕ) → ℕ
unfolding hex_digit
hex nr pos = if pos == 1 then hex_digit (nr % 16) else hex_digit (nr / 16)

abbrev pub flag : Bool → ℕ
flag b = if b then 1 else 0

unfoldable pub keyboard_setleds : (c n s : Bool) → Cmd Keyboard (Unit {0})
keyboard_setleds c n s = modify (λ k. record k { leds = flag n * 2 + flag s * 1 + flag c * 4 })

-- Code of the consoles.
abbrev pub on_terminal : {A : Type 0} → Cmd Terminal A → Cmd Keyboard A
on_terminal m k = elim (m k.terminal) [
  | ok a t ↦ ok a (record k { terminal = t })
  | fault ↦ fault
  | panic ↦ panic
  | out_of_fuel ↦ out_of_fuel
]

abbrev pub on_keys : {A : Type 0} → Cmd KeyBuffer A → Cmd Keyboard A
on_keys m k = elim (m k.keys) [
  | ok a b ↦ ok a (record k { keys = b })
  | fault ↦ fault
  | panic ↦ panic
  | out_of_fuel ↦ out_of_fuel
]

unfoldable pub console_switch_fini : Cmd Terminal (Unit {0})
console_switch_fini = do
  modify (λ t. record t { in_console_switch = false })
  console ← gets (λ t. t.ctrltab_console)
  switch_console console true >>= λ _. return

unfoldable pub console_switch_init : Cmd Terminal (Unit {0})
console_switch_init =
    modify (λ t. record t { ctrltab_console = t.current_console; in_console_switch = true })

-- The bar: 80 blank cells, white on blue.
unfoldable pub blank_bar : ℕ → List ℕ → List ℕ
blank_bar zero bar = bar
blank_bar (suc cells) [] = []
blank_bar (suc cells) (a ∷ []) = b' ' ∷ []
blank_bar (suc cells) (a ∷ b ∷ bar) = b' ' ∷ (1 * 16 + 15) ∷ blank_bar cells bar

-- The name in the cells from `i` on.
unfoldable pub write_name : (i : ℕ) → List ℕ → List ℕ → List ℕ
write_name i [] bar = bar
write_name i (ch ∷ conname) bar = write_name (i + 1) conname (set bar (2 + i * 2) ch)

-- ` (*)` behind the name of the console that is shown.
unfoldable pub mark_current : (i : ℕ) → List ℕ → List ℕ
mark_current i bar =
    set (set (set (set bar (2 + i * 2 + 0) b' ') (2 + i * 2 + 2) b'(') (2 + i * 2 + 4) b'*')
      (2 + i * 2 + 6) b')'

unfoldable pub console_switch_run : Cmd Terminal (Unit {0})
unfolding blank_bar write_name mark_current
console_switch_run = do
  before ← gets (λ t. t.ctrltab_console)
  console ← get_next_console_in_list before
  modify (λ t. record t { ctrltab_console = console })
  c ← console_at console
  t ← gets (λ t. t)
  let bar = write_name 0 c.name (blank_bar 80 t.ctrltab_bar)
  let i = strlen c.name
  modify (λ t. record t {
    ctrltab_bar = if console == t.current_console then mark_current i bar else bar;
  })
  con_update_screen t.current_console >>= λ _. return

unfoldable pub console_switch_active : Terminal → Bool
console_switch_active t = t.in_console_switch

-- `KEY_CAPSLOCK` and its kin are turned over, and the leds follow.
unfoldable pub show_locks : Cmd Keyboard (Unit {0})
unfolding keyboard_setleds
show_locks = do k ← gets (λ k. k); keyboard_setleds k.key_capslock k.key_numlock k.key_scrlock

unfoldable pub capslock_key : Cmd Keyboard (Unit {0})
unfolding show_locks
capslock_key = do modify (λ k. record k { key_capslock = not k.key_capslock }); show_locks

-- The right shift; a break clears both.
unfoldable pub right_shift : Bool → Cmd Keyboard (Unit {0})
right_shift make = modify (λ k.
    if make
    then record k { key_rshift = true }
    else record k { key_lshift = false; key_rshift = false })

-- The switch on the scancode. The cases of ALT and of the left shift have no `break`.
unfoldable pub shift_keys : (scancode : ℕ) → (make : Bool) → Cmd Keyboard (Unit {0})
unfolding capslock_key right_shift show_locks console_switch_fini
shift_keys scancode make =
    if scancode == 29
    then (if make then modify (λ k. record k { key_ctrl = true }) else (do
      modify (λ k. record k { key_ctrl = false })
      console ← gets (λ k. k.terminal.ctrltab_console)
      if console == 0 then return else on_terminal console_switch_fini))
    else if scancode == 56
    then (do modify (λ k. record k { key_alt = make }); capslock_key)
    else if scancode == 58
    then capslock_key
    else if scancode == 69
    then (do modify (λ k. record k { key_numlock = not k.key_numlock }); show_locks)
    else if scancode == 70
    then (do modify (λ k. record k { key_scrlock = not k.key_scrlock }); show_locks)
    else if scancode == 54
    then (do
      modify (λ k.
          if make
          then record k { key_lshift = true }
          else record k { key_lshift = false; key_rshift = false })
      right_shift make)
    else if scancode == 42
    then right_shift make
    else return

-- The column of the table.
unfoldable pub column : Keyboard → ℕ
column k =
    if k.key_lshift || k.key_rshift
    then 1
    else if k.key_ctrl
    then 2
    else if k.key_alt
    then 3
    else if k.key_numlock
    then 4
    else if k.key_numlock && (k.key_lshift || k.key_rshift)
    then 7
    else if k.key_capslock
    then 5
    else if k.key_capslock && (k.key_lshift || k.key_rshift)
    then 6
    else 0

-- The key of a code: its length, and its bytes. `key[2]` is a byte, so what is left of `key_ascii & 0xFF00` is 0.
unfoldable pub key_of : ℕ → ℕ × List ℕ
key_of key_ascii =
    if ltb 255 key_ascii
    then (2, bit_and key_ascii 255 ∷ (bit_and key_ascii 65280 % 256) ∷ [])
    else (1, key_ascii ∷ [])

-- The entry of the table. A scancode behind the table reads past it: `none`.
unfoldable pub key_code : Keyboard → (scancode : ℕ) → Option ℕ
unfolding column
key_code k scancode = elim (get_elem? scan2ascii_table scancode) [
  | none ↦ none
  | some row ↦ get_elem? row (column k)
]

-- The entry goes to the buffer, which may be full.
unfoldable pub stuff_code : (scancode : ℕ) → Cmd Keyboard (Unit {0})
unfolding key_code key_of
stuff_code scancode = do
  k ← gets (λ k. k)
  elim (key_code k scancode) [
    | none ↦ λ _. fault
    | some key_ascii ↦
        let (count, bytes) = key_of key_ascii in
        if key_ascii == 0 then return else (on_keys (keyboard_stuffkey count bytes) >>= λ _. return)
  ]

-- Characters in the first row of the kernel console, from column `x` on.
unfoldable pub plot_from : (kconsole x : ℕ) → List ℕ → Cmd Keyboard (Unit {0})
unfolding con_plot
plot_from kconsole x [] = return
plot_from kconsole x (ch ∷ chars) = do
  on_terminal (unless_null kconsole (at_console kconsole (con_plot x 0 ch))) >>= λ _. return
  plot_from kconsole (x + 1) chars

abbrev pub mark : Bool → ℕ → ℕ
mark flag ch = if flag then ch else b'_'

-- The flags, from column 39 on, and the flush.
unfoldable pub plot_flags : (kconsole : ℕ) → Cmd Keyboard (Unit {0})
unfolding plot_from con_flush
plot_flags kconsole = do
  k ← gets (λ k. k)
  plot_from kconsole 39 (
      b'['
      ∷ mark k.key_alt b'A'
      ∷ mark k.key_ctrl b'C'
      ∷ mark k.key_rshift b'S'
      ∷ mark k.key_lshift b'S'
      ∷ mark k.key_numlock b'N'
      ∷ mark k.key_capslock b'C'
      ∷ mark k.key_scrlock b'S'
      ∷ mark k.terminal.in_console_switch b'!'
      ∷ b']'
      ∷ [])
  on_terminal (con_flush kconsole) >>= λ _. return

-- `code` is the byte of port 0x60, `kconsole` the kernel console. The result, 0, is that no other task need be scheduled.
unfoldable pub keyboard_interrupt : (kconsole code : ℕ) → Cmd Keyboard ℕ
unfolding plot_from hex plot_flags shift_keys stuff_code console_switch_init console_switch_run
keyboard_interrupt kconsole code = do
  let make = bit_and code 128 == 0
  plot_from kconsole 50 (b'[' ∷ hex code 0 ∷ hex code 1 ∷ b']' ∷ [])
  let scancode = bit_and code 127
  shift_keys scancode make
  k ← gets (λ k. k)
  if scancode == 15 && make && not k.terminal.in_console_switch && k.key_ctrl
      then on_terminal console_switch_init
      else return
  switching ← gets (λ k. k.terminal.in_console_switch)
  if scancode == 15 && make && switching then on_terminal console_switch_run else return
  if switching
      then pure 0
      else (do if make then stuff_code scancode else return; plot_flags kconsole; pure 0)
