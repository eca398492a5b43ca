-- ===== src/Tests/Terminal.antt =====
-- The theorems on the console, the keyboard and the formats, at a screen of two by two cells and a buffer of
-- two keys.
use cyb_os.Prelude.{ℕ, ◌≡◌, refl, arith, false, List, [], ◌∷◌, inl, inr, replicate}
use cyb_os.Prelude.Run.{ok}
use cyb_os.Console.State.{Console, Terminal}
use cyb_os.Console.Print.{con_putch}
use cyb_os.Console.Cursor.{IsOnScreen, StaysOnScreen, con_putch-StaysOnScreen}
use cyb_os.Console.Screen.{flushed}
use cyb_os.Console.Screen.OneCell.{plot_then_flush, con_flush_block-one_cell}
use cyb_os.Keyboard.Buffer.{KeyBuffer}
use cyb_os.Keyboard.Buffer.Fifo.{KeyCall, stuff, poll, run_fifo}
use cyb_os.Keyboard.Buffer.Refine.{Holds, run, run-refines}

abbrev screen : Console
screen = record {
  index = 0;
  next = 0;
  prev = 0;
  name = [];
  palette = [];
  flush = 0;
  block_s_x = 2;
  block_s_y = 2;
  block_e_x = 0;
  block_e_y = 0;
  attr = 7;
  opx = 1;
  opy = 1;
  px = 1;
  py = 1;
  max_px = 2;
  max_py = 2;
  size = 8;
  buf = replicate 8 0;
}

screen-IsOnScreen : IsOnScreen screen
screen-IsOnScreen = record {
  column = omega arith;
  row = omega arith;
  columns = omega arith;
  rows = omega arith;
  size = refl;
  buf = refl;
}

abbrev terminal : Terminal
terminal = record {
  consoles = λ _. screen;
  console_list = 16;
  current_console = 16;
  default_palette = [];
  video = replicate 8 0;
  vga_palette = [];
  vga_cursor = 0;
  in_console_switch = false;
  ctrltab_console = 0;
  ctrltab_bar = [];
}

-- The last cell: the screen scrolls.
con_putch-StaysOnScreen_example : StaysOnScreen screen (con_putch b'a' screen)
con_putch-StaysOnScreen_example =
    con_putch-StaysOnScreen screen b'a' screen-IsOnScreen (inr (inl (λ h. ground (arith, h))))

con_flush_block-one_cell_example :
    (t' : Terminal) × (plot_then_flush 16 1 0 b'a' terminal ≡ ok tt t')
    × (t'.video ≡ terminal.video)
unfolding flushed
con_flush_block-one_cell_example =
    con_flush_block-one_cell terminal 16 screen 1 0 b'a' refl screen-IsOnScreen (omega arith)
      (omega arith) (omega arith)

abbrev two_keys : KeyBuffer
two_keys = record { keybuf = 65 ∷ 66 ∷ replicate 254 0; keyptr = 2 }

abbrev ab : List ℕ
ab = 65 ∷ 66 ∷ []

two_keys-Holds : Holds two_keys ab
two_keys-Holds = record { size = refl; count = refl; keys = refl; room = omega arith }

abbrev calls : List KeyCall
calls = poll ∷ stuff (67 ∷ []) ∷ poll ∷ poll ∷ poll ∷ []

run-refines_example :
    let (answers, last) = run_fifo calls ab in
    (k' : KeyBuffer) × (run calls two_keys ≡ ok answers k') × Holds k' last
run-refines_example = run-refines calls two_keys ab two_keys-Holds
