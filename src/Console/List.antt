-- ===== src/Console/List.antt =====
-- The list of consoles: `create_console`, `destroy_console` and the walks of console.c.
use cyb_os.Prelude.{ℕ, zero, suc, ◌+◌, ◌*◌, ◌%◌, List, [], ◌∷◌, take, ◌==◌, if◌then◌else◌}
use cyb_os.Prelude.Run.{out_of_fuel, Cmd, pure, ◌>>=◌, ◌>>◌, gets, modify}
use cyb_os.Klib.Text.{strncpy}
use cyb_os.Console.State.{Console, Terminal, Code, err_ok, put_console, console_at}

-- The loop that clears a new buffer: a blank and the attribute, until `size` bytes are written.
unfoldable pub blank_cells : ℕ → ℕ → List ℕ
blank_cells attr zero = []
blank_cells attr (suc cells) = b' ' ∷ attr ∷ blank_cells attr cells

-- The record before it enters the list. `garbage` is what its memory held; the sizes are the bytes that the
-- BIOS keeps: the columns, and the rows less one.
unfoldable pub new_console :
    (garbage : Console) → List ℕ → (palette : List ℕ) → (columns rows : ℕ) → Console
unfolding blank_cells
new_console garbage name palette columns rows =
    let max_py = (rows + 1) % 256 in
    record garbage {
      name = strncpy name 20;
      opx = 1;
      opy = 1;
      px = 0;
      py = 0;
      max_px = columns;
      max_py = max_py;
      attr = 7;
      size = max_py * columns * 2;
      buf = blank_cells 7 (max_py * columns);
      palette = palette;
    }

unfoldable pub last_console : ℕ → ℕ → Cmd Terminal ℕ
last_console zero console = λ _. out_of_fuel
last_console (suc fuel) console = do
  c ← console_at console
  let rest = last_console fuel c.next
  if c.next == 0 then pure console else rest

-- `console` is the address that `kmalloc` gives.
unfoldable pub create_console :
    ℕ → (console : ℕ) → (garbage : Console) → List ℕ → (columns rows : ℕ) → Cmd Terminal ℕ
unfolding new_console last_console
create_console fuel console garbage name columns rows = do
  t ← gets (λ t. t)
  let c = new_console garbage name (take 768 t.default_palette) columns rows
  if t.console_list == 0
      then (do
        modify (λ t. record (put_console console (record c { next = 0; prev = 0; index = 0 }) t) {
          console_list = console;
        })
        pure console)
      else (do
        last ← last_console fuel t.console_list
        l ← console_at last
        modify (put_console last (record l { next = console }))
        modify (put_console console (record c { next = 0; prev = last; index = l.index + 1 }))
        pure console)

-- The record of the neighbours is read and written through their pointers.
unfoldable pub destroy_console : ℕ → Cmd Terminal Code
destroy_console console = do
  c ← console_at console
  let p = c.prev
  let n = c.next
  before ← console_at p
  modify (put_console p (record before { next = n }))
  behind ← console_at n
  modify (put_console n (record behind { prev = p }))
  pure err_ok

unfoldable pub get_current_console : Cmd Terminal ℕ
get_current_console = gets (λ t. t.current_console)

unfoldable pub get_current_console_index : Cmd Terminal ℕ
get_current_console_index = do
  c ← gets (λ t. t.current_console)
  current ← console_at c
  pure current.index

unfoldable pub get_next_console_in_list : ℕ → Cmd Terminal ℕ
get_next_console_in_list console = do
  c ← console_at console
  if c.next == 0 then gets (λ t. t.console_list) else pure c.next

unfoldable pub get_prev_console_in_list : ℕ → ℕ → Cmd Terminal ℕ
unfolding last_console
get_prev_console_in_list fuel console = do
  c ← console_at console
  if c.prev == 0 then last_console fuel console else pure c.prev
