-- ===== src/Sched/WaitQueue/Wakeup.antt =====
-- `sched_wakeup` wakes every task of the queue, and empties it.
use cyb_os.Prelude.{
  ◌≡◌, refl, true, false, ◌&&◌, not, [], ◌∷◌, arith, ◌==◌, if◌then◌else◌, length, replicate,
  Bool-cases, inl, inr,
}
use cyb_os.Prelude.Run.{ok}
use cyb_os.Sched.State.{Ptr, null, runnable, Task, Kernel, write, store}
use cyb_os.Sched.TaskList.Chain.{Returns, Returns-bind, has}
use cyb_os.Sched.WaitQueue.{WaitQueue, sched_wakeup}

unfoldable pub waked : Task → Task
waked t = record t { state = runnable }

abbrev Waked : Kernel → WaitQueue → WaitQueue → Kernel → Type 0
Waked s queue queue' s' =
    (queue' ≡ replicate (length queue) null)
    × ((p : Ptr) → s'.mem p ≡ (if has p queue && not (p == null) then waked (s.mem p) else s.mem p))
    × (s' ≡ record s { mem = s'.mem })

waked_twice : (t : Task) → waked (waked t) ≡ waked t
unfolding waked
waked_twice t = refl

Waked-cons :
    (s s' : Kernel) (a : Ptr) (queue rest : WaitQueue)
    → (a == null) ≡ false
    → Waked (record s { mem = write s.mem a (waked (s.mem a)) }) queue rest s'
    → Waked s (a ∷ queue) (null ∷ rest) s'
Waked-cons s s' a queue rest ne (slots, each, same) =
    (ground (arith, slots), λ p. ground (arith, each p, waked_twice (s.mem a)), same)

Waked-skip :
    (s s' : Kernel) (a : Ptr) (queue rest : WaitQueue)
    → (a == null) ≡ true
    → Waked s queue rest s'
    → Waked s (a ∷ queue) (null ∷ rest) s'
Waked-skip s s' a queue rest e (slots, each, same) =
    (ground (arith, slots), λ p. ground (arith, each p), same)

-- `sched_wakeup` comes to its end on every queue: all slots are empty afterwards, every task that
-- stood in one is runnable, and nothing else changes.
pub sched_wakeup-runnable :
    (queue : WaitQueue) (s : Kernel)
    → Returns
        (λ queue' s'.
          (queue' ≡ replicate (length queue) null)
          × ((p : Ptr)
              → s'.mem p ≡ (if has p queue && not (p == null) then waked (s.mem p) else s.mem p))
          × (s' ≡ record s { mem = s'.mem }))
        (sched_wakeup queue s)
unfolding sched_wakeup store waked
sched_wakeup-runnable [] s = (refl, λ p. refl, refl)
sched_wakeup-runnable (a ∷ queue) s = elim (Bool-cases (a == null)) [
  | inl e ↦ rw e (
      Returns-bind (Waked s queue) (Waked s (a ∷ queue)) (sched_wakeup queue s)
        (λ rest s'. ok (null ∷ rest) s') (sched_wakeup-runnable queue s)
        (λ rest s' done. Waked-skip s s' a queue rest e done))
  | inr ne ↦
      let t : Kernel = record s { mem = write s.mem a (waked (s.mem a)) } in
      rw (ne, ne)
        (Returns-bind (Waked t queue) (Waked s (a ∷ queue)) (sched_wakeup queue t)
          (λ rest s'. ok (null ∷ rest) s') (sched_wakeup-runnable queue t)
          (λ rest s' done. Waked-cons s s' a queue rest ne done))
]
