-- ===== src/Sched/Signal.antt =====
-- Signals: `sys_signal` and `handle_pending_signals` of schedule.c.
pub mod Pending
use cyb_os.Prelude.{ℕ, ◌==◌, if◌then◌else◌}
use cyb_os.Prelude.Run.{Cmd, ◌>>=◌, ◌>>◌, gets, return}
use cyb_os.Klib.BitField.{bsf, btr, bts}
use cyb_os.Sched.State.{Ptr, null, Kernel, load, store, disable_ints, restore_ints}

abbrev pub sigalrm : ℕ
sigalrm = 14

abbrev pub sigchld : ℕ
sigchld = 17

unfoldable pub sys_signal : Ptr → ℕ → Cmd Kernel (Unit {0})
sys_signal task signal = store task (λ t. record t { signal = bts t.signal signal })

-- The `switch` over the signal only prints.
unfoldable pub handle_pending_signals : Cmd Kernel (Unit {0})
handle_pending_signals = do
  was ← disable_ints
  cur ← gets (λ s. s.current_task)
  if cur == null then restore_ints was else do
    t ← load cur
    if t.signal == 0
        then restore_ints was
        else do store cur (λ u. record u { signal = btr t.signal (bsf t.signal) }); restore_ints was
