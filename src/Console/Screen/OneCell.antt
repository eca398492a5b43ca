-- ===== src/Console/Screen/OneCell.antt =====
-- What a flush shows of one cell that was plotted.
use native.Mathlib.Nat.{add-zero}
use cyb_os.Prelude.{
  ℕ, ◌+◌, ◌-◌, ◌*◌, ◌%◌, ◌^◌, ◌≤◌, ◌<◌, ◌≡◌, refl, ap, arith, List, take-append-drop, length, ltb,
  lt→ltb, ◌==◌, false, true,
}
use cyb_os.Prelude.Run.{Run, ok, fault, panic, out_of_fuel, Cmd, ◌>>=◌, ◌>>◌, return}
use cyb_os.Console.State.{Console, Terminal, err_ok, put_console, at_console, partial_flush}
use cyb_os.Console.Print.{con_plot}
use cyb_os.Console.Cursor.{IsOnScreen, plotted, con_plot-plotted, plotted-IsOnScreen, cell_fits}
use cyb_os.Console.Screen.{move_to_video, flush_rows, flushed, con_flush_block}

-- A move of no bytes.
move_to_video-zero :
    (t : Terminal) (to : ℕ) (source : List ℕ)
    → to ≤ length source
    → to ≤ length t.video
    → move_to_video to source to 0 t ≡ ok tt t
unfolding move_to_video
move_to_video-zero t to source l m =
    rw (inside (length source) l, inside (length t.video) m, add-zero)
      (ap (λ v. ok tt (record t { video = v })) (take-append-drop to t.video))
  where
    inside : (n : ℕ) → to ≤ n → ltb n (to + 0) ≡ false
    inside n l = ground arith

-- A block of one column in one row.
flush_one :
    (t : Terminal) (console : ℕ) (c : Console)
    → t.consoles console ≡ c
    → c.flush ≡ partial_flush
    → c.block_e_x ≡ c.block_s_x
    → c.block_e_y ≡ c.block_s_y
    → c.block_s_x < 256
    → c.block_s_y * c.max_px * 2 + c.block_s_x * 2 ≤ length c.buf
    → c.block_s_y * c.max_px * 2 + c.block_s_x * 2 ≤ length t.video
    → con_flush_block console t ≡ ok tt (put_console console (flushed c) t)
unfolding con_flush_block flush_rows
flush_one t console c at p ex ey lx lb lv =
    let offset : ℕ = c.block_s_y * c.max_px * 2 + c.block_s_x * 2 in
    let rows : c.block_s_y + 1 - c.block_s_y ≡ 1 = omega arith in
    let none_copied : (c.block_s_x * 2 + (2 ^ 32 - c.block_s_x * 2)) % 2 ^ 32 ≡ 0 =
      omega (arith, lx) in
    rw (at, p, ex, ey, rows, none_copied, move_to_video-zero t offset c.buf lb lv) refl

flushed-IsOnScreen : (c : Console) → IsOnScreen c → IsOnScreen (flushed c)
unfolding flushed
flushed-IsOnScreen c on = record {
  column = on.column;
  row = on.row;
  columns = on.columns;
  rows = on.rows;
  size = on.size;
  buf = on.buf;
}

-- The first plot after a flush is such a block.
flush_plotted :
    (t : Terminal) (console : ℕ) (c : Console) (x y ch : ℕ)
    → t.consoles console ≡ plotted x y ch (flushed c)
    → IsOnScreen c
    → x < c.max_px
    → y < c.max_py
    → c.size ≤ length t.video
    → con_flush_block console t
      ≡ ok tt (put_console console (flushed (plotted x y ch (flushed c))) t)
unfolding plotted flushed
flush_plotted t console c x y ch at on lx ly fits =
    flush_one t console (plotted x y ch (flushed c)) at refl (ground (arith, lx, on.columns))
      (ground (arith, ly, on.rows)) (ground (arith, lx, on.columns))
      (rw (lt→ltb y c.max_py ly, lt→ltb x c.max_px lx)
        (omega (
          arith,
          inside,
          (plotted-IsOnScreen (flushed c) x y ch (flushed-IsOnScreen c on)).buf,
          on.size,
        )))
      (rw (lt→ltb y c.max_py ly, lt→ltb x c.max_px lx) (omega (arith, inside, fits, on.size)))
  where
    inside : y * c.max_px * 2 + x * 2 + 1 < c.max_py * c.max_px * 2
    inside = cell_fits x y c.max_px c.max_py lx ly

-- A plot on a console, and its flush.
unfoldable pub plot_then_flush : (console x y ch : ℕ) → Cmd Terminal (Unit {0})
plot_then_flush console x y ch = do
  at_console console (con_plot x y ch) >>= λ _. return
  con_flush_block console

at_console_ok :
    {A : Type 0} (m : Cmd Console A) (t : Terminal) (console : ℕ) (a : A) (d : Console)
    → m (t.consoles console) ≡ ok a d
    → at_console console m t ≡ ok a (put_console console d t)
at_console_ok {A = A} m t console a d e = go (m (t.consoles console)) e
  where
    store : Run Console A → Run Terminal A
    store r = elim r [
      | ok a c ↦ ok a (put_console console c t)
      | fault ↦ fault
      | panic ↦ panic
      | out_of_fuel ↦ out_of_fuel
    ]

    go : (r : Run Console A) → r ≡ ok a d → store r ≡ ok a (put_console console d t)
    go r e = ap store e

-- `flushed c` is a console that has just been flushed.
-- On a console with the cursor on the screen, everything shown and a buffer not larger than the video memory,
-- `con_plot` of one cell of the screen followed by `con_flush_block` leaves the video memory as it was:
-- the block ends before its last column.
pub con_flush_block-one_cell :
    (t : Terminal) (console : ℕ) (c : Console) (x y ch : ℕ)
    → t.consoles console ≡ flushed c
    → IsOnScreen c
    → x < c.max_px
    → y < c.max_py
    → c.size ≤ length t.video
    → (t' : Terminal) × (plot_then_flush console x y ch t ≡ ok tt t') × (t'.video ≡ t.video)
unfolding plot_then_flush flushed plotted
con_flush_block-one_cell t console c x y ch clean on lx ly fits = (
  put_console console (flushed d) t1,
  rw (at_console_ok (con_plot x y ch) t console err_ok d plots) flushes,
  refl,
)
  where
    d : Console
    d = plotted x y ch (flushed c)

    t1 : Terminal
    t1 = put_console console d t

    plots : con_plot x y ch (t.consoles console) ≡ ok err_ok d
    plots = rw clean (con_plot-plotted (flushed c) x y ch (flushed-IsOnScreen c on) lx ly)

    is_self : (console == console) ≡ true
    is_self = ground arith

    flushes : con_flush_block console t1 ≡ ok tt (put_console console (flushed d) t1)
    flushes = flush_plotted t1 console c x y ch (rw is_self refl) on lx ly fits
