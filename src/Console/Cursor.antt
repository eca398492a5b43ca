-- ===== src/Console/Cursor.antt =====
-- The cursor of a console and the bounds of its buffer, whatever is printed.
use cyb_os.Prelude.{
  ℕ, zero, suc, ◌+◌, ◌-◌, ◌*◌, ◌%◌, ◌≤◌, ◌<◌, ◌≡◌, ◌∙◌, if◌then◌else◌, ◌≢◌, ◌⊎◌, inl, inr, refl,
  true, false, List, ◌++◌, arith, length, set, take, drop, replicate, length-set, length-take,
  length-drop, length-append, length-replicate, Bool-cases, ltb, ◌==◌, lt→ltb,
}
use cyb_os.Prelude.Run.{Run, ok, and_then, pure}
use cyb_os.Console.State.{Console, err_ok, no_flush, partial_flush}
use cyb_os.Console.Print.{
  con_plot, con_scrollup, con_set_complete_flush, next_row, con_directputch, backspace, con_putch,
}

-- The cursor is on the screen, and the buffer has two bytes for each cell of it.
pub record IsOnScreen (c : Console) : Type 0 where
  pub column : c.px < c.max_px
  pub row : c.py < c.max_py
  pub columns : c.max_px < 256
  pub rows : c.max_py < 256
  pub size : c.size ≡ c.max_py * c.max_px * 2
  pub buf : length c.buf ≡ c.size

-- Code that ends well, with the cursor on the same screen.
pub record StaysOnScreen {A : Type 0} (c : Console) (r : Run Console A) : Type 0 where
  pub value : A
  pub after : Console
  pub runs : r ≡ ok value after
  pub on : IsOnScreen after
  pub max_px : after.max_px ≡ c.max_px
  pub max_py : after.max_py ≡ c.max_py

row_fits : (y h w : ℕ) → y < h → y * w + w ≤ h * w
row_fits zero (suc h) w l = omega arith
row_fits (suc y) (suc h) w l = omega (arith, row_fits y h w (omega arith))
row_fits zero zero w l = absurd (omega arith)
row_fits (suc y) zero w l = absurd (omega arith)

-- A cell of the screen is in the buffer.
pub cell_fits : (x y w h : ℕ) → x < w → y < h → y * w * 2 + x * 2 + 1 < h * w * 2
cell_fits x y w h lx ly = omega (arith, row_fits y h w ly)

then_pure :
    {A B : Type 0} (b : B) (c : Console) {r : Run Console A}
    → StaysOnScreen c r
    → StaysOnScreen c (and_then r (λ _. pure b))
then_pure b c s = record {
  value = b;
  after = s.after;
  runs = rw s.runs refl;
  on = s.on;
  max_px = s.max_px;
  max_py = s.max_py;
}

-- Code that ends in a console with the cursor on the screen.
ends_at :
    {A : Type 0} (c d : Console) (a : A)
    → IsOnScreen d
    → d.max_px ≡ c.max_px
    → d.max_py ≡ c.max_py
    → StaysOnScreen c (ok a d)
ends_at c d a on x y = record { value = a; after = d; runs = refl; on = on; max_px = x; max_py = y }

from_console :
    {A : Type 0} (c d : Console) {r : Run Console A}
    → d.max_px ≡ c.max_px
    → d.max_py ≡ c.max_py
    → StaysOnScreen d r
    → StaysOnScreen c r
from_console c d x y s = record {
  value = s.value;
  after = s.after;
  runs = s.runs;
  on = s.on;
  max_px = s.max_px ∙ x;
  max_py = s.max_py ∙ y;
}

scroll_length :
    (xs : List ℕ) (size start : ℕ)
    → length xs ≡ size
    → start ≤ size
    → length (take (size - start) (drop start xs) ++ replicate start 0) ≡ size
scroll_length xs size start e l = omega (
  arith,
  length-append (take (size - start) (drop start xs)) (replicate start 0),
  length-take (size - start) (drop start xs),
  length-drop start xs,
  length-replicate {A = ℕ} start 0,
)

con_scrollup-StaysOnScreen : (c : Console) → IsOnScreen c → StaysOnScreen c (con_scrollup c)
unfolding con_scrollup con_set_complete_flush
con_scrollup-StaysOnScreen c on =
    ends_at c _ _
      (record {
        column = on.column;
        row = on.row;
        columns = on.columns;
        rows = on.rows;
        size = on.size;
        buf = scroll_length c.buf c.size (c.max_px * 2) on.buf start;
      })
      refl refl
  where
    start : c.max_px * 2 ≤ c.size
    start = omega (arith, on.size, row_fits c.py c.max_py c.max_px on.row)

next_row-StaysOnScreen : (c : Console) → IsOnScreen c → StaysOnScreen c (next_row c)
unfolding next_row
next_row-StaysOnScreen c on = elim (Bool-cases (c.py + 1 == c.max_py)) [
  | inl e ↦ rw e (then_pure tt c (con_scrollup-StaysOnScreen c on))
  | inr e ↦ rw e (
      ends_at c _ _
        (record {
          column = on.column;
          row = ground (arith, on.row, on.rows, e);
          columns = on.columns;
          rows = on.rows;
          size = on.size;
          buf = on.buf;
        })
        refl refl)
]

-- The cursor anywhere in its row.
at_column : (c : Console) (x : ℕ) → IsOnScreen c → x < c.max_px → IsOnScreen (record c { px = x })
at_column c x on l = record {
  column = l;
  row = on.row;
  columns = on.columns;
  rows = on.rows;
  size = on.size;
  buf = on.buf;
}

-- The console that a plot leaves.
unfoldable pub plotted : (x y ch : ℕ) → Console → Console
plotted x y ch c = record c {
  buf = set (set c.buf (y * c.max_px * 2 + x * 2 + 0) ch) (y * c.max_px * 2 + x * 2 + 1) c.attr;
  flush = if c.flush == no_flush then partial_flush else c.flush;
  block_s_x = if ltb x c.block_s_x then x else c.block_s_x;
  block_e_x = if ltb c.block_e_x x then x % 256 else c.block_e_x;
  block_s_y = if ltb y c.block_s_y then y else c.block_s_y;
  block_e_y = if ltb c.block_e_y y then y % 256 else c.block_e_y;
}

pub plotted-IsOnScreen : (c : Console) (x y ch : ℕ) → IsOnScreen c → IsOnScreen (plotted x y ch c)
unfolding plotted
plotted-IsOnScreen c x y ch on = record {
  column = on.column;
  row = on.row;
  columns = on.columns;
  rows = on.rows;
  size = on.size;
  buf = omega (
    arith,
    on.buf,
    length-set (set c.buf (y * c.max_px * 2 + x * 2 + 0) ch) (y * c.max_px * 2 + x * 2 + 1) c.attr,
    length-set c.buf (y * c.max_px * 2 + x * 2 + 0) ch,
  );
}

-- A plot on the screen stays in the buffer.
pub con_plot-plotted :
    (c : Console) (x y ch : ℕ)
    → IsOnScreen c
    → x < c.max_px
    → y < c.max_py
    → con_plot x y ch c ≡ ok err_ok (plotted x y ch c)
unfolding con_plot plotted
con_plot-plotted c x y ch on lx ly =
    rw (lt→ltb (y * c.max_px * 2 + x * 2 + 1) (length c.buf) inside) refl
  where
    inside : y * c.max_px * 2 + x * 2 + 1 < length c.buf
    inside = omega (arith, on.buf, on.size, cell_fits x y c.max_px c.max_py lx ly)

con_directputch-StaysOnScreen :
    (c : Console) (ch : ℕ) → IsOnScreen c → StaysOnScreen c (con_directputch ch c)
unfolding con_directputch plotted
con_directputch-StaysOnScreen c ch on =
    rw (con_plot-plotted c c.px c.py ch on on.column on.row)
      (elim (Bool-cases ((c.px + 1) % 256 == c.max_px)) [
        | inl e ↦ rw e (
            then_pure err_ok c (
              from_console c (record d { px = 0 }) refl refl
                (next_row-StaysOnScreen (record d { px = 0 })
                  (at_column d 0 on_d (omega (arith, on.column))))))
        | inr e ↦ rw e (
            ends_at c (record d { px = (c.px + 1) % 256 }) err_ok
              (at_column d ((c.px + 1) % 256) on_d (ground (arith, on.column, on.columns, e))) refl
              refl)
      ])
  where
    d : Console
    d = plotted c.px c.py ch c

    on_d : IsOnScreen d
    on_d = plotted-IsOnScreen c c.px c.py ch on

backspace-StaysOnScreen :
    (c : Console) → IsOnScreen c → (c.px ≢ 0) ⊎ (c.py ≡ 0) → StaysOnScreen c (backspace c)
unfolding backspace plotted
backspace-StaysOnScreen c on above = elim (Bool-cases (c.px == 0)) [
  | inl e ↦ elim above [
    | inl h ↦ absurd (h (ground (arith, e)))
    | inr h ↦ rw (e, top h) (ends_at c c err_ok on refl refl)
  ]
  | inr e ↦ rw e (
      rw (con_plot-plotted (left e) (c.px - 1) c.py b' ' (on_left e) (on_left e).column on.row) (
        ends_at c (plotted (c.px - 1) c.py b' ' (left e)) err_ok
          (plotted-IsOnScreen (left e) (c.px - 1) c.py b' ' (on_left e)) refl refl))
]
  where
    top : c.py ≡ 0 → (c.py == 0) ≡ true
    top h = ground (arith, h)

    left : (c.px == 0) ≡ false → Console
    left e = record c { px = c.px - 1 }

    on_left : (e : (c.px == 0) ≡ false) → IsOnScreen (left e)
    on_left e = at_column c (c.px - 1) on (omega (arith, on.column))

-- For any character but a backspace in column 0 below row 0, `con_putch` on a console with the cursor on the screen
-- and a buffer of the screen's size writes inside the buffer only, and leaves the cursor on the same screen.
pub con_putch-StaysOnScreen :
    (c : Console) (ch : ℕ)
    → IsOnScreen c
    → (ch ≢ 8) ⊎ ((c.px ≢ 0) ⊎ (c.py ≡ 0))
    → StaysOnScreen c (con_putch ch c)
unfolding con_putch
con_putch-StaysOnScreen c ch on above = elim (Bool-cases (ch == 10)) [
  | inl e ↦ rw e (
      then_pure err_ok c (
        from_console c (record c { px = 0 }) refl refl
          (next_row-StaysOnScreen (record c { px = 0 })
            (at_column c 0 on (omega (arith, on.column))))))
  | inr e ↦ rw e (elim (Bool-cases (ch == 13)) [
    | inl f ↦ rw f (
        ends_at c (record c { px = 0 }) err_ok (at_column c 0 on (omega (arith, on.column))) refl
          refl)
    | inr f ↦ rw f (elim (Bool-cases (ch == 8)) [
      | inl g ↦ rw g (
          backspace-StaysOnScreen c on
            (elim above [ inl h ↦ absurd (h (ground (arith, g))) | inr h ↦ h ]))
      | inr g ↦ rw g (con_directputch-StaysOnScreen c ch on)
    ])
  ])
]
