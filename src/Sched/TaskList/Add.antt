-- ===== src/Sched/TaskList/Add.antt =====
-- `sched_add_task` appends to the list.
use cyb_os.Prelude.{
  ℕ, zero, suc, ◌≤◌, ◌<◌, ◌≡◌, refl, sym, ap, ◌∙◌, ◌≢◌, false, List, [], ◌∷◌, ◌++◌, arith, ◌==◌,
  length, if◌then◌else◌,
}
use cyb_os.Prelude.Run.{ok}
use cyb_os.Sched.State.{Ptr, null, Task, Kernel, write, load, store}
use cyb_os.Sched.TaskList.{find_last, sched_add_task}
use cyb_os.Sched.TaskList.Chain.{Returns, has, last_of, Chain, IsTaskList, has-append, ne-last_of}

find_last_lem :
    (fuel : ℕ) (s : Kernel) (prev a : Ptr) (l : List Ptr)
    → Chain s.mem prev (a ∷ l)
    → length l < fuel
    → find_last fuel a s ≡ ok (last_of a l) s
unfolding find_last load
find_last_lem zero s prev a l c k = absurd (omega arith)
find_last_lem (suc fuel) s prev a [] c k = ground arith
find_last_lem (suc fuel) s prev a (b ∷ bs) c l =
    let ih : find_last fuel b s ≡ ok (last_of b bs) s =
      find_last_lem fuel s a b bs c.4 (omega arith) in
    let e : (a == null) ≡ false = ground arith in
    let f : (b == null) ≡ false = ground arith in rw (e, c.3, f) ih

-- What the writes of the second branch make of the memory.
abbrev linked : (Ptr → Task) → Ptr → Ptr → Ptr → Task
linked m last new =
    write
      (write (write m last (record (m last) { next = new })) new (record (m new) { prev = last }))
      new (record (m new) { prev = last; next = null })

has-ne : (a new : Ptr) (l : List Ptr) → has new (a ∷ l) ≡ false → a ≢ new
has-ne a new l h = ground arith

has-append_new :
    (a new : Ptr) (l : List Ptr) → has a l ≡ false → a ≢ new → has a (l ++ (new ∷ [])) ≡ false
has-append_new a new l h ne = rw (has-append a l (new ∷ [])) (ground arith)

linked_other : (m : Ptr → Task) (last new p : Ptr) → p ≢ last → p ≢ new → linked m last new p ≡ m p
linked_other m last new p h k = ground arith

Chain-linked :
    (m : Ptr → Task) (prev a : Ptr) (l : List Ptr) (new : Ptr)
    → Chain m prev (a ∷ l)
    → has new (a ∷ l) ≡ false
    → new ≢ null
    → Chain (linked m (last_of a l) new) prev ((a ∷ l) ++ (new ∷ []))
Chain-linked m prev a [] new c out ne = ground arith
Chain-linked m prev a (b ∷ bs) new c out ne =
    let ih : Chain (linked m (last_of b bs) new) a ((b ∷ bs) ++ (new ∷ [])) =
      Chain-linked m a b bs new c.4 (ground arith) ne in
    let same : linked m (last_of b bs) new a ≡ m a =
      linked_other m (last_of b bs) new a (ne-last_of a b bs c.1) (has-ne a new (b ∷ bs) out) in
    (
      c.0,
      has-append_new a new (b ∷ bs) c.1 (has-ne a new (b ∷ bs) out),
      rw same c.2,
      rw same c.3,
      ih,
    )

Chain-first :
    (m : Ptr → Task) (new : Ptr)
    → new ≢ null
    → Chain (write m new (record (m new) { prev = null; next = null })) null (new ∷ [])
Chain-first m new ne = ground arith

-- `sched_add_task` puts the task behind the last one. The interrupt flag, the current task and
-- every task but the old last and the new one stay as they are.
abbrev pub Added : Kernel → List Ptr → Ptr → Unit {0} → Kernel → Type 0
Added s xs new _ s' =
    IsTaskList s' (xs ++ (new ∷ []))
    × (s'.ints ≡ s.ints)
    × (s'.current_task ≡ s.current_task)
    × ((p : Ptr) → (s'.mem p).pid ≡ (s.mem p).pid)
    × ((p : Ptr) → (s'.mem p).state ≡ (s.mem p).state)

add-empty :
    (fuel : ℕ) (s : Kernel) (new : Ptr)
    → s.task_list ≡ null
    → new ≢ null
    → sched_add_task fuel new s
      ≡ ok tt (record s {
        mem =
            write
              (write s.mem new (record (s.mem new) { next = null }))
              new
              (record (s.mem new) { prev = null; next = null });
        task_list = new;
        idle_task = new;
      })
unfolding sched_add_task load store
add-empty fuel s new h ne = ground arith

add-behind :
    (fuel : ℕ) (s : Kernel) (last new : Ptr)
    → s.task_list ≢ null
    → find_last fuel s.task_list (record s { ints = false }) ≡ ok last (record s { ints = false })
    → last ≢ null
    → new ≢ null
    → last ≢ new
    → sched_add_task fuel new s ≡ ok tt (record s { mem = linked s.mem last new })
unfolding sched_add_task load store
add-behind fuel s last new h e lne ne apart = ground arith

last-ne-null :
    (m : Ptr → Task) (prev a : Ptr) (l : List Ptr) → Chain m prev (a ∷ l) → last_of a l ≢ null
last-ne-null m prev a [] c = c.0
last-ne-null m prev a (b ∷ bs) c = last-ne-null m a b bs c.4

new-ne-last : (new a : Ptr) (l : List Ptr) → has new (a ∷ l) ≡ false → last_of a l ≢ new
new-ne-last new a l h e = ne-last_of new a l h (sym e)

linked-links :
    (m : Ptr → Task) (last new p : Ptr)
    → last ≢ new
    → linked m last new p
      ≡ record (m p) { prev = (linked m last new p).prev; next = (linked m last new p).next }
linked-links m last new p apart = ground arith

-- On a well-formed list `sched_add_task`, given as many rounds as there are tasks, comes to its end
-- without an access through NULL. The new task is the last of the list, and the others keep their
-- order. Of each task only the links change, and of the rest of the state only the head of the list
-- and the idle task, which is the new task if the list was empty, and else the one that it was.
pub sched_add_task-IsTaskList :
    (fuel : ℕ) (s : Kernel) (xs : List Ptr) (new : Ptr)
    → IsTaskList s xs
    → has new xs ≡ false
    → new ≢ null
    → length xs ≤ fuel
    → Returns
        (λ _ s'.
          IsTaskList s' (xs ++ (new ∷ []))
          × ((p : Ptr)
              → s'.mem p ≡ record (s.mem p) { prev = (s'.mem p).prev; next = (s'.mem p).next })
          × (s'.idle_task ≡ (if s.task_list == null then new else s.idle_task))
          × (s' ≡ record s { mem = s'.mem; task_list = s'.task_list; idle_task = s'.idle_task }))
        (sched_add_task fuel new s)
sched_add_task-IsTaskList fuel s [] new is out ne k =
    rw (add-empty fuel s new is.head ne) (
      record { head = refl; chain = ground arith },
      λ p. ground arith,
      ground (arith, is.head),
      refl,
    )
sched_add_task-IsTaskList fuel s (a ∷ l) new is out ne k =
    let walk : find_last fuel s.task_list (record s { ints = false })
        ≡ ok (last_of a l) (record s { ints = false }) =
      ap (λ p. find_last fuel p (record s { ints = false })) is.head
      ∙ find_last_lem fuel (record s { ints = false }) null a l is.chain (omega arith) in
    rw
      (add-behind fuel s (last_of a l) new (λ e. is.chain.0 (sym is.head ∙ e)) walk
        (last-ne-null s.mem null a l is.chain) ne (new-ne-last new a l out))
      (
        record { head = is.head; chain = Chain-linked s.mem null a l new is.chain out ne },
        λ p. linked-links s.mem (last_of a l) new p (new-ne-last new a l out),
        ground (arith, is.head, is.chain.0),
        refl,
      )
