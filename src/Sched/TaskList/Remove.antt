-- ===== src/Sched/TaskList/Remove.antt =====
-- `sched_remove_task` unlinks a task.
use cyb_os.Prelude.{◌≡◌, refl, sym, ◌∙◌, ◌≢◌, false, List, [], ◌∷◌, ◌++◌, arith}
use mathlib.Core.List.{append-nil}
use cyb_os.Prelude.Run.{ok}
use cyb_os.Sched.State.{Ptr, null, Task, Kernel, pid_idle, write, load, store}
use cyb_os.Sched.TaskList.{sched_remove_task}
use cyb_os.Sched.TaskList.Chain.{
  Returns, has, last_of, Chain, IsTaskList, has-append, ne-last_of, Chain-frame, Chain-back,
  last-ne-null,
}

-- The writes of `sched_remove_task` at the end of the list, and in its middle.
abbrev cut : (Ptr → Task) → Ptr → Ptr → Ptr → Task
cut m before next = write m before (record (m before) { next = next })

abbrev bridged : (Ptr → Task) → Ptr → Ptr → Ptr → Task
bridged m before after =
    write (cut m before after) after (record ((cut m before after) after) { prev = before })

remove_last :
    (s : Kernel) (task : Ptr)
    → task ≢ null
    → (s.mem task).pid ≢ pid_idle
    → (s.mem task).next ≡ null
    → (s.mem task).prev ≢ null
    → sched_remove_task task s ≡ ok tt (record s { mem = cut s.mem (s.mem task).prev null })
unfolding sched_remove_task load store
remove_last s task ne p n v = ground arith

remove_middle :
    (s : Kernel) (task : Ptr)
    → task ≢ null
    → (s.mem task).pid ≢ pid_idle
    → (s.mem task).next ≢ null
    → (s.mem task).prev ≢ null
    → sched_remove_task task s
      ≡ ok tt (record s { mem = bridged s.mem (s.mem task).prev (s.mem task).next })
unfolding sched_remove_task load store
remove_middle s task ne p n v = ground arith

has-front : (a : Ptr) (l r : List Ptr) → has a (l ++ r) ≡ false → has a l ≡ false
has-front a l r h = ground (arith, has-append a l r)

has-behind : (a t : Ptr) (l r : List Ptr) → has a (l ++ (t ∷ r)) ≡ false → has a (l ++ r) ≡ false
has-behind a t l r h = ground (arith, has-append a l (t ∷ r), has-append a l r)

cut_other : (m : Ptr → Task) (before next p : Ptr) → p ≢ before → cut m before next p ≡ m p
cut_other m before next p h = ground arith

bridged_other :
    (m : Ptr → Task) (before after p : Ptr)
    → p ≢ before
    → p ≢ after
    → bridged m before after p ≡ m p
bridged_other m before after p h k = ground arith

Chain-cut :
    (m : Ptr → Task) (prev a t : Ptr) (l : List Ptr)
    → Chain m prev ((a ∷ l) ++ (t ∷ []))
    → Chain (cut m (last_of a l) null) prev (a ∷ l)
Chain-cut m prev a t [] c = ground arith
Chain-cut m prev a t (b ∷ bs) c =
    let out : has a (b ∷ bs) ≡ false = has-front a (b ∷ bs) (t ∷ []) c.1 in
    let same : cut m (last_of b bs) null a ≡ m a =
      cut_other m (last_of b bs) null a (ne-last_of a b bs out) in
    (c.0, out, rw same c.2, rw same c.3, Chain-cut m a b t bs c.4)

Chain-bridged :
    (m : Ptr → Task) (prev a t d : Ptr) (l r : List Ptr)
    → Chain m prev ((a ∷ l) ++ (t ∷ d ∷ r))
    → Chain (bridged m (last_of a l) d) prev ((a ∷ l) ++ (d ∷ r))
Chain-bridged m prev a t d [] r c =
    let rest : Chain (bridged m a d) d r =
      Chain-frame m (bridged m a d) d r c.4.4.4 (λ b h. ground arith) in
    (
      c.0,
      ground arith,
      ground arith,
      ground arith,
      (c.4.4.0, c.4.4.1, ground arith, ground arith, rest),
    )
Chain-bridged m prev a t d (b ∷ bs) r c =
    let out : has a (b ∷ bs) ≡ false = has-front a (b ∷ bs) (t ∷ d ∷ r) c.1 in
    let apart : a ≢ d = ground (arith, has-append a (b ∷ bs) (t ∷ d ∷ r)) in
    let same : bridged m (last_of b bs) d a ≡ m a =
      bridged_other m (last_of b bs) d a (ne-last_of a b bs out) apart in
    (
      c.0,
      has-behind a t (b ∷ bs) (d ∷ r) c.1,
      rw same c.2,
      rw same c.3,
      Chain-bridged m a b t d bs r c.4,
    )

-- On a well-formed list, a task that is neither the first nor the idle task is unlinked: the list
-- has the other tasks in their old order. Nothing but links changes: each task keeps all its fields but `prev` and
-- `next`, and the rest of the state is as before, the interrupt flag included.
pub sched_remove_task-IsTaskList :
    (s : Kernel) (a t : Ptr) (l r : List Ptr)
    → IsTaskList s ((a ∷ l) ++ (t ∷ r))
    → (s.mem t).pid ≢ pid_idle
    → Returns
        (λ _ s'.
          IsTaskList s' ((a ∷ l) ++ r)
          × ((p : Ptr)
              → s'.mem p ≡ record (s.mem p) { prev = (s'.mem p).prev; next = (s'.mem p).next })
          × (s' ≡ record s { mem = s'.mem }))
        (sched_remove_task t s)
sched_remove_task-IsTaskList s a t l [] is h =
    let back = Chain-back s.mem null a l (t ∷ []) is.chain in
    let ne = last-ne-null s.mem null a l (t ∷ []) is.chain in
    rw (remove_last s t back.0 h back.3 (λ e. ne (sym back.2 ∙ e)), back.2, append-nil (a ∷ l))
      (
        record { head = is.head; chain = Chain-cut s.mem null a t l is.chain },
        λ p. ground arith,
        refl,
      )
sched_remove_task-IsTaskList s a t l (d ∷ r) is h =
    let back = Chain-back s.mem null a l (t ∷ d ∷ r) is.chain in
    let ne = last-ne-null s.mem null a l (t ∷ d ∷ r) is.chain in
    rw
      (
        remove_middle s t back.0 h (λ e. back.4.0 (sym back.3 ∙ e)) (λ e. ne (sym back.2 ∙ e)),
        back.2,
        back.3,
      )
      (
        record { head = is.head; chain = Chain-bridged s.mem null a t d l r is.chain },
        λ p. ground arith,
        refl,
      )

-- Were the first of several tasks not the idle task, `sched_remove_task` would leave the new first
-- task with a `prev` that still points to the removed one.
pub sched_remove_task_first :
    (s : Kernel) (t d : Ptr) (r : List Ptr)
    → IsTaskList s (t ∷ d ∷ r)
    → (s.mem t).pid ≢ pid_idle
    → Returns (λ _ s'. (s'.task_list ≡ d) × ((s'.mem d).prev ≡ t)) (sched_remove_task t s)
unfolding sched_remove_task load store
sched_remove_task_first s t d r is h = ground arith
