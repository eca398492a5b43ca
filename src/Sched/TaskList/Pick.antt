-- ===== src/Sched/TaskList/Pick.antt =====
-- `get_next_runnable_task` serves the tasks in turn.
use cyb_os.Prelude.{
  ℕ, zero, suc, ◌<◌, ◌≡◌, refl, sym, ◌∙◌, ◌≢◌, Bool, true, false, ◌&&◌, not, List, [], ◌∷◌, ◌++◌,
  arith, ◌==◌, if◌then◌else◌, length, ◌⊎◌, inl,
}
use mathlib.Core.List.{append_assoc}
use cyb_os.Prelude.Run.{ok}
use cyb_os.Sched.State.{Ptr, null, Task, Kernel, pid_idle, is_runnable, load}
use cyb_os.Sched.TaskList.{next_runnable_from, get_next_runnable_task}
use cyb_os.Sched.TaskList.Chain.{has, Chain, IsTaskList, has-append, Chain-back, last-ne-null}

-- A task that the scheduler may choose.
abbrev pub is_ready : Task → Bool
is_ready t = is_runnable t.state && not (t.pid == pid_idle)

-- The first ready task of a list, or NULL.
abbrev pub pick : (Ptr → Task) → List Ptr → Ptr
pick m [] = null
pick m (p ∷ l) = if is_ready (m p) then p else pick m l

-- The step of the loop: on to the next task, or round to the head of the list.
abbrev step : (Ptr → Task) → Ptr → Ptr → Ptr
step m list p = if (m p).next == null then list else (m p).next

-- The steps from `p` lead through `l`.
abbrev Walk : (Ptr → Task) → Ptr → Ptr → List Ptr → Type 0
Walk m list p [] = Unit {0}
Walk m list p (q ∷ l) = (step m list p ≡ q) × (q ≢ null) × Walk m list q l

next_runnable_from_lem :
    (fuel : ℕ) (s : Kernel) (cur p : Ptr) (l : List Ptr)
    → p ≢ null
    → has cur l ≡ false
    → Walk s.mem s.task_list p (l ++ (cur ∷ []))
    → length l < fuel
    → next_runnable_from fuel cur p s ≡ ok (pick s.mem (l ++ (cur ∷ []))) s
unfolding next_runnable_from load
next_runnable_from_lem zero s cur p l ne out w k = absurd (omega arith)
next_runnable_from_lem (suc fuel) s cur p [] ne out w k = ground arith
next_runnable_from_lem (suc fuel) s cur p (q ∷ l) ne out w k =
    ground (arith, next_runnable_from_lem fuel s cur q l)

Walk-front :
    (m : Ptr → Task) (list prev p cur : Ptr) (l r : List Ptr)
    → Chain m prev (p ∷ (l ++ (cur ∷ r)))
    → Walk m list p (l ++ (cur ∷ []))
Walk-front m list prev p cur [] r c = ground arith
Walk-front m list prev p cur (q ∷ l) r c = (ground arith, c.4.0, Walk-front m list p q cur l r c.4)

Walk-round :
    (m : Ptr → Task) (list prev p : Ptr) (l w : List Ptr)
    → Chain m prev (p ∷ l)
    → ((q : Ptr) → (m q).next ≡ null → Walk m list q w)
    → Walk m list p (l ++ w)
Walk-round m list prev p [] w c round = round p c.3
Walk-round m list prev p (q ∷ l) w c round =
    (ground arith, c.4.0, Walk-round m list p q l w c.4 round)

Chain-suffix :
    (m : Ptr → Task) (prev : Ptr) (l r : List Ptr)
    → Chain m prev (l ++ r)
    → (before : Ptr) × Chain m before r
Chain-suffix m prev [] r c = (prev, c)
Chain-suffix m prev (a ∷ l) r c = Chain-suffix m a l r c.4

from_head :
    (s : Kernel) (l : List Ptr) (cur : Ptr) (r : List Ptr) (q : Ptr)
    → IsTaskList s (l ++ (cur ∷ r))
    → (s.mem q).next ≡ null
    → Walk s.mem s.task_list q (l ++ (cur ∷ []))
from_head s [] cur r q is e = ground arith
from_head s (a ∷ l) cur r q is e =
    (ground arith, is.chain.0, Walk-front s.mem s.task_list null a cur l r is.chain)

go_round :
    (s : Kernel) (l : List Ptr) (cur : Ptr) (r : List Ptr)
    → IsTaskList s (l ++ (cur ∷ r))
    → Walk s.mem s.task_list cur (r ++ (l ++ (cur ∷ [])))
go_round s l cur r is =
    let (before, c) = Chain-suffix s.mem null l (cur ∷ r) is.chain in
    Walk-round s.mem s.task_list before cur r (l ++ (cur ∷ [])) c
      (λ q e. from_head s l cur r q is e)

not-before :
    (m : Ptr → Task) (prev cur : Ptr) (l r : List Ptr)
    → Chain m prev (l ++ (cur ∷ r))
    → has cur l ≡ false
not-before m prev cur [] r c = refl
not-before m prev cur (a ∷ l) r c =
    ground (arith, has-append a l (cur ∷ r), not-before m a cur l r c.4)

open_run :
    (fuel : ℕ) (s : Kernel) (cur found : Ptr)
    → cur ≢ null
    → ((s.mem cur).prev ≡ null → (s.mem cur).next ≡ null → ⊥)
    → next_runnable_from fuel cur cur (record s { ints = false })
      ≡ ok found (record s { ints = false })
    → get_next_runnable_task fuel cur s ≡ ok found s
unfolding get_next_runnable_task load
open_run fuel s cur found ne several e = ground arith

several :
    (s : Kernel) (l : List Ptr) (cur : Ptr) (r : List Ptr)
    → IsTaskList s (l ++ (cur ∷ r))
    → 0 < length (r ++ l)
    → (s.mem cur).prev ≡ null
    → (s.mem cur).next ≡ null
    → ⊥
several s [] cur [] is k e f = omega arith
several s [] cur (b ∷ r) is k e f = is.chain.4.0 (sym is.chain.3 ∙ f)
several s (a ∷ l) cur r is k e f =
    last-ne-null s.mem null a l (cur ∷ r) is.chain
      (sym (Chain-back s.mem null a l (cur ∷ r) is.chain).2 ∙ e)

-- `get_next_runnable_task`, called for a task of a list of several, comes to its end in as many
-- rounds as there are tasks and changes nothing. It returns the first ready task (runnable and not
-- the idle task) in the order that begins behind `cur`, goes on at the head of the list and ends
-- with `cur` itself, and NULL when no task is ready.
pub get_next_runnable_task-pick :
    (fuel : ℕ) (s : Kernel) (l : List Ptr) (cur : Ptr) (r : List Ptr)
    → IsTaskList s (l ++ (cur ∷ r))
    → 0 < length (r ++ l)
    → length (r ++ l) < fuel
    → get_next_runnable_task fuel cur s ≡ ok (pick s.mem (r ++ (l ++ (cur ∷ [])))) s
get_next_runnable_task-pick fuel s l cur r is many k =
    let (before, c) = Chain-suffix s.mem null l (cur ∷ r) is.chain in
    let out : has cur (r ++ l) ≡ false =
      ground (arith, has-append cur r l, not-before s.mem null cur l r is.chain) in
    let walk : Walk s.mem s.task_list cur ((r ++ l) ++ (cur ∷ [])) =
      rw (append_assoc r l (cur ∷ [])) (go_round s l cur r is) in
    let found =
      next_runnable_from_lem fuel (record s { ints = false }) cur cur (r ++ l) c.0 out walk k in
    rw (← append_assoc r l (cur ∷ [])) (
      open_run fuel s cur (pick s.mem ((r ++ l) ++ (cur ∷ []))) c.0 (several s l cur r is many)
        found)

-- `pick` is NULL exactly when no task of the list is ready, and otherwise a ready task of the list.
pub pick_lem :
    (m : Ptr → Task) (l : List Ptr)
    → (pick m l ≡ null) ⊎ ((has (pick m l) l ≡ true) × (is_ready (m (pick m l)) ≡ true))
pick_lem m [] = inl refl
pick_lem m (p ∷ l) = ground (arith, pick_lem m l)
