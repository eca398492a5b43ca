-- ===== src/Console/Screen.antt =====
-- The screen of the video card: the flushes, the cursor and the switch of consoles, of conio.c and console.c.
-- The waits for the vertical retrace change no state and are left out.
pub mod OneCell
use cyb_os.Prelude.{
  ℕ, zero, suc, ◌+◌, ◌-◌, ◌*◌, ◌/◌, ◌%◌, ◌^◌, Bool, not, List, [], ◌∷◌, ◌++◌, take, drop, length,
  ltb, leb, ◌==◌, ◌||◌, Option, none, some, if◌then◌else◌,
}
use cyb_os.Prelude.Run.{fault, out_of_fuel, Cmd, pure, ◌>>=◌, ◌>>◌, gets, modify, return}
use cyb_os.Console.State.{
  Console, Terminal, Code, err_ok, err_error, no_flush, partial_flush, wholescreen_flush,
  put_console, at_console, unless_null,
}
use cyb_os.Console.Print.{con_set_complete_flush}
use cyb_os.Console.List.{blank_cells}

-- `memmove` of `count` bytes at `from` of one buffer to `to` of the video memory.
unfoldable pub move_to_video : (to : ℕ) → List ℕ → (from count : ℕ) → Cmd Terminal (Unit {0})
move_to_video to source from count t =
    if ltb (length source) (from + count) || ltb (length t.video) (to + count)
    then fault
    else modify
        (λ t. record t {
          video = take to t.video ++ (take count (drop from source) ++ drop (to + count) t.video);
        })
        t

-- The rows of a block, from `y` on. `rows` are those left; the loop ends behind row `block_e_y`.
unfoldable pub flush_rows : (rows : ℕ) → Console → (offset row_size : ℕ) → Cmd Terminal (Unit {0})
unfolding move_to_video
flush_rows zero c offset row_size = return
flush_rows (suc rows) c offset row_size = do
  move_to_video offset c.buf offset row_size
  flush_rows rows c (offset + c.max_px * 2) row_size

-- What is flushed is marked as such.
unfoldable pub flushed : Console → Console
flushed c = record c {
  flush = no_flush;
  block_s_x = c.max_px;
  block_s_y = c.max_py;
  block_e_x = 0;
  block_e_y = 0;
}

-- `row_size` is a `Uint32`: a block that ends before it starts wraps around.
unfoldable pub con_flush_block : ℕ → Cmd Terminal (Unit {0})
unfolding flush_rows flushed move_to_video
con_flush_block console = do
  c ← gets (λ t. t.consoles console)
  let offset = c.block_s_y * c.max_px * 2 + c.block_s_x * 2
  let row_size = (c.block_e_x * 2 + (2 ^ 32 - c.block_s_x * 2)) % 2 ^ 32
  if c.flush == no_flush then return else (do
    if c.flush == wholescreen_flush then move_to_video 0 c.buf 0 c.size else return
    if c.flush == partial_flush
        then flush_rows (c.block_e_y + 1 - c.block_s_y) c offset row_size
        else return
    modify (put_console console (flushed c)))

unfoldable pub con_update_screen : ℕ → Cmd Terminal Code
unfolding con_flush_block con_set_complete_flush move_to_video
con_update_screen console = unless_null console (do
  active ← gets (λ t. t.in_console_switch)
  if active
      then (do
        at_console console con_set_complete_flush
        con_flush_block console
        c ← gets (λ t. t.consoles console)
        bar ← gets (λ t. t.ctrltab_bar)
        if c.max_py == 0 then (λ _. fault) else return
        move_to_video ((c.max_py - 1) * c.max_px * 2) bar 0 (c.max_px * 2)
        pure err_ok)
      else (do con_flush_block console; pure err_ok))

-- The card takes the offset in two bytes.
unfoldable pub con_set_vga_cursor : ℕ → Cmd Terminal (Unit {0})
con_set_vga_cursor cursor_offset = modify (λ t. record t { vga_cursor = cursor_offset % 2 ^ 16 })

unfoldable pub con_get_vga_cursor : Cmd Terminal ℕ
con_get_vga_cursor t =
    let hi = t.vga_cursor / 2 ^ 8 in let lo = t.vga_cursor % 2 ^ 8 in pure (hi * 256 + lo) t

unfoldable pub con_flush : ℕ → Cmd Terminal Code
unfolding con_update_screen con_set_vga_cursor
con_flush console = unless_null console (do
  current ← gets (λ t. t.current_console)
  if current == console
      then (do
        con_update_screen console >>= λ _. return
        c ← gets (λ t. t.consoles console)
        con_set_vga_cursor (c.py * c.max_px + c.px)
        modify (put_console console (record c { opy = c.py; opx = c.px }))
        pure err_ok)
      else pure err_ok)

-- The positions are not negative here: no caller passes such.
unfoldable pub con_setxy : (console x y : ℕ) → Cmd Terminal Code
unfolding con_set_vga_cursor
con_setxy console x y = unless_null console (do
  c ← gets (λ t. t.consoles console)
  if leb c.max_px x || leb c.max_py y then pure err_error else (do
    modify (put_console console (record c { px = x; py = y }))
    current ← gets (λ t. t.current_console)
    if current == console then con_set_vga_cursor (y * c.max_px + x) else return
    pure err_ok))

-- What `*x` and `*y` are given, or the code for NULL.
unfoldable pub con_getxy : ℕ → Cmd Terminal (Option (ℕ × ℕ))
con_getxy console =
    if console == 0
    then pure none
    else gets (λ t. some ((t.consoles console).px, (t.consoles console).py))

unfoldable pub con_setattr : (console attr : ℕ) → Cmd Terminal Code
con_setattr console attr = unless_null console (do
  c ← gets (λ t. t.consoles console)
  modify (put_console console (record c { attr = attr % 256 }))
  pure err_ok)

-- 100 is `ERR_CON_INVALID_CONSOLE`.
unfoldable pub con_getattr : ℕ → Cmd Terminal ℕ
con_getattr console = if console == 0 then pure 100 else gets (λ t. (t.consoles console).attr)

-- `size` is even, and the size of the buffer.
unfoldable pub con_clrscr : ℕ → Cmd Terminal Code
unfolding blank_cells con_set_complete_flush con_setxy con_flush
con_clrscr console = unless_null console (do
  c ← gets (λ t. t.consoles console)
  modify (put_console console (record c { buf = blank_cells c.attr (c.size / 2) }))
  at_console console con_set_complete_flush
  con_setxy console 0 0 >>= λ _. return
  con_flush console >>= λ _. return
  pure err_ok)

unfoldable pub con_set_palette : ℕ → Cmd Terminal Code
con_set_palette console = unless_null console (do
  c ← gets (λ t. t.consoles console)
  modify (λ t. record t { vga_palette = take 768 c.palette })
  pure err_ok)

unfoldable pub switch_console : ℕ → Bool → Cmd Terminal Code
unfolding con_update_screen con_set_palette con_setxy
switch_console new_console force_update = do
  current ← gets (λ t. t.current_console)
  if force_update || not (current == new_console)
      then (do
        modify (λ t. record t { current_console = new_console })
        con_update_screen new_console >>= λ _. return
        con_set_palette new_console >>= λ _. return
        c ← gets (λ t. t.consoles new_console)
        con_setxy new_console c.px c.py >>= λ _. return
        pure err_ok)
      else pure err_ok
