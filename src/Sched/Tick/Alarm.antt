-- ===== src/Sched/Tick/Alarm.antt =====
-- Alarms, and the time slice.
use cyb_os.Prelude.{
  ℕ, zero, suc, ◌+◌, ◌-◌, ◌%◌, ◌^◌, ◌<◌, ◌≤◌, ◌≡◌, ◌≢◌, refl, sym, ap, subst, inl, inr, Bool-cases,
  false, ◌&&◌, ◌||◌, not, arith, ◌==◌, if◌then◌else◌, List, [], ◌∷◌, length,
}
use cyb_os.Prelude.Run.{Run, ok, fault, panic, out_of_fuel, and_then}
use cyb_os.Klib.BitField.{bts}
use cyb_os.Sched.State.{
  Ptr, null, runnable, Task, Kernel, pid_idle, write, load, store, restore_ints, is_initialising,
  is_interruptable,
}
use cyb_os.Sched.TaskList.Chain.{
  Returns, Chain, IsTaskList, Returns-mono, Returns-bind, has-apart, Chain-links, Chain-frame,
  first_of_list, has,
}
use cyb_os.Sched.Signal.{sys_signal, sigalrm}
use cyb_os.Sched.Tick.{
  count_down, wake_on_signal, administer, administer_from, global_task_administration,
  timer_interrupt, quantum,
}

-- One tick of a task's alarm: it raises SIGALRM when it comes to zero.
abbrev pub rung : Task → Task
rung t =
    if t.alarm == 0
    then t
    else if t.alarm - 1 == 0
    then record t { alarm = 0; signal = bts t.signal sigalrm }
    else record t { alarm = t.alarm - 1 }

-- A sleeping task with a signal is runnable again.
abbrev pub woken : Task → Task
woken t =
    if not (t.signal == 0) && is_interruptable t.state then record t { state = runnable } else t

-- What a tick makes of a task.
unfoldable pub ticked : Task → Task
ticked t = if is_initialising t.state || t.pid == pid_idle then t else woken (rung t)

rung_mem : (Ptr → Task) → Ptr → Ptr → Task
rung_mem m p =
    if (m p).alarm == 0
    then m
    else let g : Ptr → Task = write m p (record (m p) { alarm = (m p).alarm - 1 }) in
      if (m p).alarm - 1 == 0
      then write g p (record (g p) { signal = bts (g p).signal sigalrm })
      else g

rung_mem_lem : (m : Ptr → Task) (p q : Ptr) → rung_mem m p q ≡ (if q == p then rung (m p) else m q)
unfolding rung_mem
rung_mem_lem m p q = ground arith

count_down_lem :
    (s : Kernel) (p : Ptr) → p ≢ null → count_down p s ≡ ok tt (record s { mem = rung_mem s.mem p })
unfolding count_down sys_signal load store rung_mem
count_down_lem s p ne = ground arith

woken_mem : (Ptr → Task) → Ptr → Ptr → Task
woken_mem m p =
    if not ((m p).signal == 0) && is_interruptable (m p).state
    then write m p (record (m p) { state = runnable })
    else m

woken_mem_lem :
    (m : Ptr → Task) (p q : Ptr) → woken_mem m p q ≡ (if q == p then woken (m p) else m q)
unfolding woken_mem
woken_mem_lem m p q = ground arith

wake_on_signal_lem :
    (s : Kernel) (p : Ptr)
    → p ≢ null
    → wake_on_signal p s ≡ ok tt (record s { mem = woken_mem s.mem p })
unfolding wake_on_signal load store woken_mem
wake_on_signal_lem s p ne = ground arith

ticked_mem : (Ptr → Task) → Ptr → Ptr → Task
ticked_mem m p =
    if is_initialising (m p).state || (m p).pid == pid_idle then m else woken_mem (rung_mem m p) p

ticked_mem_lem :
    (m : Ptr → Task) (p q : Ptr) → ticked_mem m p q ≡ (if q == p then ticked (m p) else m q)
unfolding ticked_mem ticked
ticked_mem_lem m p q =
    ground (arith, woken_mem_lem (rung_mem m p) p q, rung_mem_lem m p q, rung_mem_lem m p p)

administer_lem :
    (s : Kernel) (p : Ptr)
    → p ≢ null
    → administer p s ≡ ok tt (record s { mem = ticked_mem s.mem p })
unfolding administer load ticked_mem
administer_lem s p ne =
    ground
      (arith, count_down_lem s p ne, wake_on_signal_lem (record s { mem = rung_mem s.mem p }) p ne)

ticked-next : (t : Task) → ((ticked t).prev ≡ t.prev) × ((ticked t).next ≡ t.next)
unfolding ticked
ticked-next t = ground arith

ticked_mem-frame :
    (m : Ptr → Task) (p prev : Ptr) (l : List Ptr)
    → Chain m prev l
    → has p l ≡ false
    → Chain (ticked_mem m p) prev l
ticked_mem-frame m p prev l c out =
    Chain-frame m (ticked_mem m p) prev l c
      (λ q h. rw (ticked_mem_lem m p q, has-apart p q l out h) refl)

-- What a walk along `l` has done.
abbrev Ticked : Kernel → List Ptr → Unit {0} → Kernel → Type 0
Ticked s l _ s' =
    ((p : Ptr) → s'.mem p ≡ (if has p l then ticked (s.mem p) else s.mem p))
    × (s' ≡ record s { mem = s'.mem })

Ticked-cons :
    (s s' : Kernel) (a : Ptr) (l : List Ptr)
    → has a l ≡ false
    → Ticked (record s { mem = ticked_mem s.mem a }) l tt s'
    → Ticked s (a ∷ l) tt s'
Ticked-cons s s' a l out (each, rest) =
    (λ p. ground (arith, each p, ticked_mem_lem s.mem a p), rest)

administer_from_lem :
    (fuel : ℕ) (s : Kernel) (prev : Ptr) (l : List Ptr)
    → Chain s.mem prev l
    → length l < fuel
    → Returns (Ticked s l) (administer_from fuel (first_of_list l) s)
unfolding administer_from load
administer_from_lem zero s prev l c k = absurd (omega arith)
administer_from_lem (suc fuel) s prev [] c k = (λ p. refl, refl)
administer_from_lem (suc fuel) s prev (a ∷ l) c k =
    let e : (a == null) ≡ false = ground arith in
    let t : Kernel = record s { mem = ticked_mem s.mem a } in
    let link : (ticked_mem s.mem a a).next ≡ first_of_list l =
      ground (arith, ticked_mem_lem s.mem a a, ticked-next (s.mem a)) in
    rw (e, administer_lem s a c.0, e, link)
      (Returns-mono (Ticked t l) (Ticked s (a ∷ l)) _
        (administer_from_lem fuel t a l (ticked_mem-frame s.mem a a l c.4 c.1) (omega arith))
        (λ _ s' done. Ticked-cons s s' a l c.1 done))

restored :
    (s : Kernel) (xs : List Ptr) (r : Run Kernel (Unit {0}))
    → Returns (Ticked (record s { ints = false }) xs) r
    → Returns
        (λ _ s'.
          ((p : Ptr) → s'.mem p ≡ (if has p xs then ticked (s.mem p) else s.mem p))
          × (s' ≡ record s { mem = s'.mem }))
        (and_then r (λ _. restore_ints s.ints))
restored s xs (ok a s') (each, same) = elim (Bool-cases s.ints) [
  | inl y ↦ rw y (each, ground arith)
  | inr n ↦ rw n (each, ground arith)
]
restored s xs fault none_left = none_left
restored s xs panic none_left = none_left
restored s xs out_of_fuel none_left = none_left

-- `global_task_administration`, on a well-formed list and with enough rounds, comes to its end and
-- does to each task of the list what `ticked` says: the alarm of a task that is initialised and not
-- the idle task counts down, raises SIGALRM when it comes to zero, and a task that sleeps
-- interruptibly with a signal pending is runnable again. Nothing else changes.
pub global_task_administration-ticked :
    (fuel : ℕ) (s : Kernel) (xs : List Ptr)
    → IsTaskList s xs
    → length xs < fuel
    → Returns
        (λ _ s'.
          ((p : Ptr) → s'.mem p ≡ (if has p xs then ticked (s.mem p) else s.mem p))
          × (s' ≡ record s { mem = s'.mem }))
        (global_task_administration fuel s)
unfolding global_task_administration
global_task_administration-ticked fuel s xs is k =
    let t : Kernel = record s { ints = false } in
    let walk = administer_from_lem fuel t null xs is.chain k in
    restored s xs (administer_from fuel s.task_list t)
      (subst (λ p. Returns (Ticked t xs) (administer_from fuel p t)) (sym is.head) walk)

-- The time of the tick, counted for the current task.
abbrev charged : Kernel → ℕ → Kernel
charged s rpl = record s {
  kernel_ticks = (s.kernel_ticks + 1) % 2 ^ 64;
  mem = write s.mem s.current_task (
      let t = s.mem s.current_task in
      if rpl == 0
      then record t { ktime = (t.ktime + 1) % 2 ^ 64 }
      else record t { utime = (t.utime + 1) % 2 ^ 64 });
}

charged-links :
    (s : Kernel) (rpl : ℕ) (p : Ptr)
    → (((charged s rpl).mem p).prev ≡ (s.mem p).prev)
      × (((charged s rpl).mem p).next ≡ (s.mem p).next)
charged-links s rpl p = ground arith

abbrev Left : Kernel → Unit {0} → Kernel → Type 0
Left s _ s' = s'.schedule_ticks ≡ s.schedule_ticks

-- `timer_interrupt`, while a task runs and within a time slice of 1 to 50 ticks left: it asks for a
-- reschedule exactly on the last tick of the slice, and then begins a slice of 50; otherwise one
-- tick fewer is left.
pub timer_interrupt-slice :
    (fuel rpl : ℕ) (s : Kernel) (xs : List Ptr)
    → IsTaskList s xs
    → length xs < fuel
    → s.current_task ≢ null
    → 0 < s.schedule_ticks
    → s.schedule_ticks ≤ quantum
    → Returns
        (λ due s'.
          (due ≡ (s.schedule_ticks == 1))
          × (s'.schedule_ticks ≡ (if s.schedule_ticks == 1 then quantum else s.schedule_ticks - 1)))
        (timer_interrupt fuel rpl s)
unfolding timer_interrupt store
timer_interrupt-slice fuel rpl s xs is k ne some_left small =
    let e : (s.current_task == null) ≡ false = ground arith in
    let t : Kernel = charged s rpl in
    let walk =
      global_task_administration-ticked fuel t xs
        (record {
          head = is.head;
          chain = Chain-links s.mem t.mem null xs (charged-links s rpl) is.chain;
        })
        k in
    rw (e, e)
      (Returns-bind (Left s) _ (global_task_administration fuel t) _
        (Returns-mono _ (Left s) (global_task_administration fuel t) walk
          (λ _ s' done. ap (λ x. x.schedule_ticks) done.1))
        (λ _ s' left. ground (arith, left)))
