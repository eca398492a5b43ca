-- ===== src/Keyboard/Buffer/Fifo.antt =====
-- What the buffer of keys promises: a queue of bytes with a bound.
use cyb_os.Prelude.{
  ℕ, ◌+◌, Bool, true, false, List, [], ◌∷◌, ◌++◌, Option, none, some, leb, if◌then◌else◌, length,
}
use cyb_os.Keyboard.Buffer.{max_keybuf}

-- A call of `keyboard_stuffkey` with a key of these bytes, or of `keyboard_poll`.
pub data KeyCall : Type 0 where
  stuff : List ℕ → KeyCall
  poll : KeyCall

-- What a call answers.
pub data Answer : Type 0 where
  stuffed : Bool → Answer
  polled : Option ℕ → Answer

-- One byte of the 256 always stays free.
unfoldable pub stuff_fifo : List ℕ → List ℕ → Bool × List ℕ
stuff_fifo bytes queue =
    if leb max_keybuf (length queue + length bytes) then (false, queue) else (true, queue ++ bytes)

unfoldable pub poll_fifo : List ℕ → Option ℕ × List ℕ
poll_fifo [] = (none, [])
poll_fifo (ch ∷ queue) = (some ch, queue)

unfoldable pub call_fifo : KeyCall → List ℕ → Answer × List ℕ
unfolding stuff_fifo poll_fifo
call_fifo (stuff bytes) queue =
    let (room, behind) = stuff_fifo bytes queue in (stuffed room, behind)
call_fifo poll queue = let (ch, behind) = poll_fifo queue in (polled ch, behind)

-- The answers to a list of calls, and what the queue holds then.
unfoldable pub run_fifo : List KeyCall → List ℕ → List Answer × List ℕ
unfolding call_fifo
run_fifo [] queue = ([], queue)
run_fifo (call ∷ calls) queue =
    let (answer, behind) = call_fifo call queue in
    let (answers, last) = run_fifo calls behind in (answer ∷ answers, last)
