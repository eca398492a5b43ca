-- ===== src/Sched/Process/Orphans.antt =====
-- A task that exits leaves no children behind.
use cyb_os.Prelude.{
  ℕ, zero, suc, ◌<◌, ◌≡◌, ◌≢◌, refl, ◌∙◌, false, List, [], ◌∷◌, arith, ◌==◌, if◌then◌else◌, length,
}
use cyb_os.Prelude.Run.{ok}
use cyb_os.Sched.State.{Ptr, null, Task, Kernel, write, load, store}
use cyb_os.Sched.TaskList.Chain.{
  Returns, Returns-mono, Chain, Chain-frame, has, has-apart, first_of_list,
}
use cyb_os.Sched.Process.{reparent_from}

-- What the loop of `sys_exit` makes of a task.
unfoldable pub adopted : ℕ → Task → Task
adopted pid t = if t.ppid == pid then record t { ppid = 0 } else t

abbrev adopted_mem : (Ptr → Task) → ℕ → Ptr → Ptr → Task
adopted_mem m pid p = if (m p).ppid == pid then write m p (record (m p) { ppid = 0 }) else m

adopted_mem_lem :
    (m : Ptr → Task) (pid p q : ℕ)
    → adopted_mem m pid p q ≡ (if q == p then adopted pid (m p) else m q)
unfolding adopted
adopted_mem_lem m pid p q = ground arith

adopted-next : (pid : ℕ) (t : Task) → (adopted pid t).next ≡ t.next
unfolding adopted
adopted-next pid t = ground arith

abbrev Adopted : Kernel → ℕ → List Ptr → Unit {0} → Kernel → Type 0
Adopted s pid l _ s' =
    ((p : Ptr) → s'.mem p ≡ (if has p l then adopted pid (s.mem p) else s.mem p))
    × (s' ≡ record s { mem = s'.mem })

Adopted-cons :
    (s s' : Kernel) (pid : ℕ) (a : Ptr) (l : List Ptr) (g : Ptr → Task)
    → ((q : Ptr) → g q ≡ (if q == a then adopted pid (s.mem a) else s.mem q))
    → has a l ≡ false
    → Adopted (record s { mem = g }) pid l tt s'
    → Adopted s pid (a ∷ l) tt s'
Adopted-cons s s' pid a l g made out (each, rest) = (λ p. ground (arith, each p, made p), rest)

adopted_mem-frame :
    (m : Ptr → Task) (pid p prev : ℕ) (l : List Ptr)
    → Chain m prev l
    → has p l ≡ false
    → Chain (adopted_mem m pid p) prev l
adopted_mem-frame m pid p prev l c out =
    Chain-frame m (adopted_mem m pid p) prev l c
      (λ q h. adopted_mem_lem m pid p q ∙ rw (has-apart p q l out h) refl)

no_round : (fuel pid : ℕ) (s : Kernel) → reparent_from (suc fuel) pid null s ≡ ok tt s
unfolding reparent_from
no_round fuel pid s = refl

one_round :
    (fuel pid : ℕ) (s : Kernel) (a next : Ptr)
    → a ≢ null
    → (adopted_mem s.mem pid a a).next ≡ next
    → reparent_from (suc fuel) pid a s
      ≡ reparent_from fuel pid next (record s { mem = adopted_mem s.mem pid a })
unfolding reparent_from load store
one_round fuel pid s a next ne e = ground arith

-- The loop of `sys_exit`, on a well-formed list of tasks and with enough rounds, comes to its end.
-- Each task of the list that had the exiting task's pid as its `ppid` has 0 there, and nothing else
-- changes.
pub reparent_from-adopted :
    (fuel pid : ℕ) (s : Kernel) (prev : Ptr) (l : List Ptr)
    → Chain s.mem prev l
    → length l < fuel
    → Returns
        (λ _ s'.
          ((p : Ptr) → s'.mem p ≡ (if has p l then adopted pid (s.mem p) else s.mem p))
          × (s' ≡ record s { mem = s'.mem }))
        (reparent_from fuel pid (first_of_list l) s)
reparent_from-adopted zero pid s prev l c k = absurd (omega arith)
reparent_from-adopted (suc fuel) pid s prev [] c k = rw (no_round fuel pid s) (λ p. refl, refl)
reparent_from-adopted (suc fuel) pid s prev (a ∷ l) c k =
    let g : Ptr → Task = adopted_mem s.mem pid a in
    let t : Kernel = record s { mem = g } in
    let link : (adopted_mem s.mem pid a a).next ≡ first_of_list l = ground (arith) in
    rw (one_round fuel pid s a (first_of_list l) c.0 link) (
      Returns-mono (Adopted t pid l) (Adopted s pid (a ∷ l))
        (reparent_from fuel pid (first_of_list l) t)
        (reparent_from-adopted fuel pid t a l (adopted_mem-frame s.mem pid a a l c.4 c.1)
          (omega arith))
        (λ _ s' done. Adopted-cons s s' pid a l g (adopted_mem_lem s.mem pid a) c.1 done))
