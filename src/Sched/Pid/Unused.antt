-- ===== src/Sched/Pid/Unused.antt =====
-- Which pids `allocate_new_pid` hands out.
use cyb_os.Prelude.{
  ℕ, zero, suc, ◌-◌, ◌^◌, ◌<◌, ◌≤◌, ◌≡◌, sym, ◌∙◌, ap, Bool, false, ◌||◌, arith, ◌==◌,
  if◌then◌else◌, inl, inr, ◌⊎◌, List, [], ◌∷◌, length, Bool-cases,
}
use cyb_os.Prelude.Run.{ok}
use cyb_os.Sched.State.{Ptr, null, Task, Kernel, max_pid, load}
use cyb_os.Sched.TaskList.Chain.{Returns, Chain, IsTaskList, last_of}
use cyb_os.Sched.Pid.{next_pid, pid_in_use, find_pid, allocate_new_pid}

-- Whether a task other than the last of the list has this pid.
abbrev pub used : (Ptr → Task) → ℕ → List Ptr → Bool
used m pid [] = false
used m pid (a ∷ []) = false
used m pid (a ∷ b ∷ l) = ((m a).pid == pid) || used m pid (b ∷ l)

-- The pid after `k` more steps.
abbrev pub pid_after : ℕ → ℕ → ℕ
pid_after zero p = next_pid p
pid_after (suc k) p = pid_after k (next_pid p)

-- The pids run from 0 to 65535, round and round, also from the -1 that `current_pid` starts with.
next_pid-le : (p : ℕ) → p ≤ max_pid ⊎ (p ≡ 2 ^ 32 - 1) → next_pid p ≤ max_pid
unfolding next_pid
next_pid-le p h = ground arith

pid_in_use_lem :
    (fuel : ℕ) (s : Kernel) (prev pid a : ℕ) (l : List Ptr)
    → Chain s.mem prev (a ∷ l)
    → length l < fuel
    → pid_in_use fuel pid a s ≡ ok (used s.mem pid (a ∷ l)) s
unfolding pid_in_use load
pid_in_use_lem zero s prev pid a l c k = absurd (omega arith)
pid_in_use_lem (suc fuel) s prev pid a [] c k = ground arith
pid_in_use_lem (suc fuel) s prev pid a (b ∷ l) c k =
    ground (arith, pid_in_use_lem fuel s a pid b l c.4)

module _ (fuel : ℕ) (a : Ptr) (l : List Ptr) (enough : length l < fuel) where
  -- One round, on a free pid and on one in use.
  round :
      (rounds : ℕ) (s : Kernel)
      → IsTaskList s (a ∷ l)
      → find_pid (suc rounds) fuel s ≡ (
          if used s.mem (next_pid s.current_pid) (a ∷ l)
          then find_pid rounds fuel (record s { current_pid = next_pid s.current_pid })
          else ok tt (record s { current_pid = next_pid s.current_pid }))
  unfolding find_pid
  round rounds s is =
      let pid : ℕ = next_pid s.current_pid in
      let t : Kernel = record s { current_pid = pid } in
      let at : pid_in_use fuel pid s.task_list t ≡ ok (used s.mem pid (a ∷ l)) t =
        ap (λ p. pid_in_use fuel pid p t) is.head
        ∙ pid_in_use_lem fuel t null pid a l is.chain enough in
      ground (arith, at)

  find_pid_lem :
      (k rounds : ℕ) (s : Kernel)
      → IsTaskList s (a ∷ l)
      → k < rounds
      → used s.mem (pid_after k s.current_pid) (a ∷ l) ≡ false
      → (j : ℕ) × (j ≤ k)
        × (used s.mem (pid_after j s.current_pid) (a ∷ l) ≡ false)
        × (find_pid rounds fuel s ≡ ok tt (record s { current_pid = pid_after j s.current_pid }))
  find_pid_lem k zero s is h free = absurd (omega arith)
  find_pid_lem zero (suc rounds) s is h free = (0, omega arith, free, rw (round rounds s is, free))
  find_pid_lem (suc k) (suc rounds) s is h free =
      elim (Bool-cases (used s.mem (next_pid s.current_pid) (a ∷ l))) [
        | inl taken ↦
            let t : Kernel = record s { current_pid = next_pid s.current_pid } in
            let (j, small, ok_j, e) =
              find_pid_lem k rounds t (record { head = is.head; chain = is.chain }) (omega arith)
                free in
            (suc j, omega arith, ok_j, rw (round rounds s is, taken) e)
        | inr open_pid ↦ (0, omega arith, open_pid, rw (round rounds s is, open_pid))
      ]

pid_after-le : (k p : ℕ) → (p ≤ max_pid) ⊎ (p ≡ 2 ^ 32 - 1) → pid_after k p ≤ max_pid
pid_after-le zero p h = next_pid-le p h
pid_after-le (suc k) p h = pid_after-le k (next_pid p) (inl (next_pid-le p h))

-- `allocate_new_pid`, on a well-formed list and from a `current_pid` that it has left itself or
-- that it starts with: if the pid `k` steps further on is free, it comes to its end within `k + 1`
-- rounds. The pid lies between 0 and 65535 and belongs to no task of the list but perhaps the last
-- one; the next search goes on from it, and nothing else changes.
pub allocate_new_pid-unused :
    (rounds fuel k : ℕ) (s : Kernel) (a : Ptr) (l : List Ptr)
    → IsTaskList s (a ∷ l)
    → length l < fuel
    → (s.current_pid ≤ max_pid) ⊎ (s.current_pid ≡ 2 ^ 32 - 1)
    → k < rounds
    → used s.mem (pid_after k s.current_pid) (a ∷ l) ≡ false
    → (pid : ℕ) × (pid ≤ max_pid)
      × (used s.mem pid (a ∷ l) ≡ false)
      × (allocate_new_pid rounds fuel s ≡ ok pid (record s { current_pid = pid }))
unfolding allocate_new_pid
allocate_new_pid-unused rounds fuel k s a l is enough start h free =
    let t : Kernel = record s { ints = false } in
    let (j, small, open_pid, e) =
      find_pid_lem fuel a l enough k rounds t (record { head = is.head; chain = is.chain }) h
        free in
    (pid_after j s.current_pid, pid_after-le j s.current_pid start, open_pid, ground (arith, e))

-- When the pid that is next in turn belongs to the last task of the list and to no other one,
-- `allocate_new_pid` hands it out a second time.
pub allocate_new_pid-clash :
    (rounds fuel : ℕ) (s : Kernel) (a : Ptr) (l : List Ptr)
    → IsTaskList s (a ∷ l)
    → length l < fuel
    → 0 < rounds
    → (s.mem (last_of a l)).pid ≡ next_pid s.current_pid
    → used s.mem (next_pid s.current_pid) (a ∷ l) ≡ false
    → Returns (λ pid s'. pid ≡ (s'.mem (last_of a l)).pid) (allocate_new_pid rounds fuel s)
unfolding allocate_new_pid
allocate_new_pid-clash zero fuel s a l is enough h last free = absurd (omega arith)
allocate_new_pid-clash (suc rounds) fuel s a l is enough h last free =
    let t : Kernel = record s { ints = false } in
    let e = round fuel a l enough rounds t (record { head = is.head; chain = is.chain }) in
    rw (e, free) (elim (Bool-cases s.ints) [ inl y ↦ rw y (sym last) | inr n ↦ rw n (sym last) ])
