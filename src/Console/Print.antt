-- ===== src/Console/Print.antt =====
-- Characters into the buffer of one console: `con_plot`, `con_scrollup`, `con_directputch` and
-- `con_putch` of conio.c. Their test for NULL is `unless_null`, made before.
use cyb_os.Prelude.{
  ℕ, ◌+◌, ◌-◌, ◌*◌, ◌%◌, ◌++◌, ◌&&◌, ltb, ◌==◌, if◌then◌else◌, length, set, take, drop, replicate,
}
use cyb_os.Prelude.Run.{ok, fault, Cmd, pure, ◌>>=◌, ◌>>◌, gets, modify, return}
use cyb_os.Console.State.{Console, Code, err_ok, no_flush, partial_flush, wholescreen_flush}

unfoldable pub con_set_complete_flush : Cmd Console (Unit {0})
con_set_complete_flush = modify (λ c. record c { flush = wholescreen_flush })

-- Two rows: the cell, and the block that has changed. A cell behind the buffer is a fault.
unfoldable pub con_plot : (x y ch : ℕ) → Cmd Console Code
con_plot x y ch c =
    let offset = y * c.max_px * 2 + x * 2 in
    if ltb (offset + 1) (length c.buf)
    then ok err_ok (record c {
      buf = set (set c.buf (offset + 0) ch) (offset + 1) c.attr;
      flush = if c.flush == no_flush then partial_flush else c.flush;
      block_s_x = if ltb x c.block_s_x then x else c.block_s_x;
      block_e_x = if ltb c.block_e_x x then x % 256 else c.block_e_x;
      block_s_y = if ltb y c.block_s_y then y else c.block_s_y;
      block_e_y = if ltb c.block_e_y y then y % 256 else c.block_e_y;
    })
    else fault

-- `memmove` of all rows but the first, and `memset` of the last one. `size` is that of `buf`.
unfoldable pub con_scrollup : Cmd Console Code
unfolding con_set_complete_flush
con_scrollup c =
    let start = c.max_px * 2 in
    let moved = take (c.size - start) (drop start c.buf) in
    (con_set_complete_flush >> pure err_ok) (record c { buf = moved ++ replicate start 0 })

-- To the next row, or scroll on the last one. `max_py - 1` is an `int`.
unfoldable pub next_row : Cmd Console (Unit {0})
unfolding con_scrollup
next_row = do
  c ← gets (λ c. c)
  if c.py + 1 == c.max_py
      then (con_scrollup >>= λ _. return)
      else modify (λ c. record c { py = (c.py + 1) % 256 })

unfoldable pub con_directputch : ℕ → Cmd Console Code
unfolding con_plot next_row
con_directputch ch = do
  c ← gets (λ c. c)
  con_plot c.px c.py ch >>= λ _. return
  modify (λ c. record c { px = (c.px + 1) % 256 })
  d ← gets (λ d. d)
  if d.px == d.max_px
      then (do modify (λ c. record c { px = 0 }); next_row; pure err_ok)
      else pure err_ok

unfoldable pub backspace : Cmd Console Code
unfolding con_plot
backspace = do
  c ← gets (λ c. c)
  if c.px == 0 && c.py == 0
      then pure err_ok
      else if c.px == 0
      then (do
        modify (λ c. record c { py = c.py - 1; px = c.max_px })
        d ← gets (λ d. d)
        con_plot d.px d.py b' ')
      else (do modify (λ c. record c { px = c.px - 1 }); d ← gets (λ d. d); con_plot d.px d.py b' ')

unfoldable pub con_putch : ℕ → Cmd Console Code
unfolding next_row backspace con_directputch
con_putch ch =
    if ch == 10
    then (do modify (λ c. record c { px = 0 }); next_row; pure err_ok)
    else if ch == 13
    then (do modify (λ c. record c { px = 0 }); pure err_ok)
    else if ch == 8
    then backspace
    else con_directputch ch
