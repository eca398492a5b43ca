-- ===== src/Keyboard/Line.antt =====
-- A line from the keyboard: `con_gets` of conio.c.
use cyb_os.Prelude.{
  ℕ, zero, suc, ◌-◌, List, [], ◌∷◌, ◌++◌, Option, none, some, length, take, ◌==◌, if◌then◌else◌,
}
use cyb_os.Prelude.Run.{out_of_fuel, Cmd, pure, ◌>>=◌, ◌>>◌, return}
use cyb_os.Console.State.{at_console}
use cyb_os.Console.Print.{con_putch}
use cyb_os.Console.Screen.{con_flush}
use cyb_os.Keyboard.Buffer.{keyboard_poll}
use cyb_os.Keyboard.Interrupt.{Keyboard, on_terminal, on_keys}

-- A character on the console, and a flush.
unfoldable pub echo_char : (console ch : ℕ) → Cmd Keyboard (Unit {0})
echo_char console ch = do
  on_terminal (at_console console (con_putch ch)) >>= λ _. return
  on_terminal (con_flush console) >>= λ _. return

-- What `str` holds before its NUL comes back; a round is one key. Without a key it waits, so the fuel is the
-- number of keys that come.
unfoldable pub read_keys : ℕ → (console : ℕ) → (str : List ℕ) → (len : ℕ) → Cmd Keyboard (List ℕ)
unfolding echo_char
read_keys zero console str len = λ _. out_of_fuel
read_keys (suc fuel) console str len = do
  let same = read_keys fuel console str len
  let shorter = read_keys fuel console (take (length str - 1) str) len
  key ← on_keys keyboard_poll
  elim key [
    | none ↦ λ _. out_of_fuel
    | some ch ↦
        let longer = read_keys fuel console (str ++ (ch ∷ [])) len in
        if ch == 8
        then (if length str == 0 then same else (do echo_char console 8; shorter))
        else if ch == 13
        then pure str
        else if length str == len
        then same
        else (do echo_char console ch; longer)
  ]

-- `none` is `ERR_CON_INVALID_CONSOLE`.
unfoldable pub con_gets : ℕ → (console len : ℕ) → Cmd Keyboard (Option (List ℕ))
unfolding read_keys
con_gets fuel console len =
    if console == 0 then pure none else (do str ← read_keys fuel console [] len; pure (some str))
