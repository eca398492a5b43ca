-- ===== src/Sched/Signal/Pending.antt =====
-- Signals are raised and served one at a time.
use cyb_os.Prelude.{ℕ, ◌^◌, ◌<◌, ◌≡◌, ◌≢◌, refl, false, arith, ◌==◌, if◌then◌else◌}
use cyb_os.Prelude.Run.{ok}
use cyb_os.Word.Bits.{bit}
use cyb_os.Klib.BitField.{bsf, btr}
use cyb_os.Klib.BitField.Digits.{bit-bts, bit-btr, bsf-lowest}
use cyb_os.Sched.State.{Ptr, null, Kernel, write, load, store}
use cyb_os.Sched.TaskList.Chain.{Returns}
use cyb_os.Sched.Signal.{sys_signal, handle_pending_signals}

-- `sys_signal` raises one signal of one task: of the pending signals, that one is added, and no
-- other task changes.
pub sys_signal-raises :
    (s : Kernel) (task : Ptr) (signal : ℕ)
    → task ≢ null
    → signal < 32
    → Returns
        (λ _ s'.
          ((j : ℕ)
            → bit (s'.mem task).signal j ≡ (if signal == j then 1 else bit (s.mem task).signal j))
          × ((p : Ptr) → p ≢ task → s'.mem p ≡ s.mem p))
        (sys_signal task signal s)
unfolding sys_signal store
sys_signal-raises s task signal ne h =
    let e : (task == null) ≡ false = ground arith in
    rw e (λ j. ground (arith, bit-bts (s.mem task).signal signal j h), λ p k. ground arith)

handle_lem :
    (s : Kernel)
    → s.current_task ≢ null
    → (s.mem s.current_task).signal ≢ 0
    → handle_pending_signals s
      ≡ ok tt (record s {
        mem = write s.mem s.current_task (record (s.mem s.current_task) {
          signal = btr (s.mem s.current_task).signal (bsf (s.mem s.current_task).signal);
        });
      })
unfolding handle_pending_signals load store
handle_lem s ne some_signal = ground arith

-- `handle_pending_signals` serves, of the signals that are pending for the current task, the one
-- with the lowest number: that one is cleared and the others stay pending. No other task changes,
-- and the interrupt flag is restored.
pub handle_pending_signals-lowest :
    (s : Kernel)
    → s.current_task ≢ null
    → (s.mem s.current_task).signal ≢ 0
    → (s.mem s.current_task).signal < 2 ^ 32
    → (i : ℕ) × (bit (s.mem s.current_task).signal i ≡ 1)
      × ((j : ℕ) → j < i → bit (s.mem s.current_task).signal j ≡ 0)
      × Returns
          (λ _ s'.
            ((j : ℕ)
              → j < 32
              → bit (s'.mem s.current_task).signal j
                ≡ (if i == j then 0 else bit (s.mem s.current_task).signal j))
            × ((p : Ptr) → p ≢ s.current_task → s'.mem p ≡ s.mem p)
            × (s'.ints ≡ s.ints))
          (handle_pending_signals s)
handle_pending_signals-lowest s ne some_signal h =
    let x = (s.mem s.current_task).signal in
    let (inside, set, below) = bsf-lowest x some_signal h in
    (
      bsf x,
      set,
      below,
      rw (handle_lem s ne some_signal)
          (λ j k. ground (arith, bit-btr x (bsf x) j inside k), λ p k. ground arith, refl),
    )
