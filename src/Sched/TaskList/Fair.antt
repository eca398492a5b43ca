-- ===== src/Sched/TaskList/Fair.antt =====
-- Turns that are taken one after the other: no task that is ready waits for ever.
use mathlib.Core.List.{append_assoc, append-nil}
use cyb_os.Prelude.{
  ℕ, zero, suc, ◌≤◌, ◌<◌, ◌≡◌, refl, ap, subst, ◌∙◌, true, List, [], ◌∷◌, ◌++◌, arith, ◌==◌, length,
  length-append, ◌⊎◌, inl, inr, Bool-cases,
}
use cyb_os.Prelude.Run.{ok, Cmd, pure, ◌>>=◌}
use cyb_os.Sched.State.{Ptr, Task, Kernel}
use cyb_os.Sched.TaskList.{get_next_runnable_task}
use cyb_os.Sched.TaskList.Chain.{has, IsTaskList, has-append}
use cyb_os.Sched.TaskList.Pick.{is_ready, pick, get_next_runnable_task-pick}

-- Where an element stands in a list made of two.
Split : (xs ys a b : List Ptr) (y : Ptr) → Type 0
Split xs ys a b y =
    ((c : List Ptr) × (a ≡ xs ++ c) × (ys ≡ c ++ (y ∷ b)))
    ⊎ ((c : List Ptr) × (xs ≡ a ++ (y ∷ c)) × (b ≡ c ++ ys))

tail_eq : {x y : Ptr} {xs ys : List Ptr} → (x ∷ xs) ≡ (y ∷ ys) → xs ≡ ys
tail_eq e = cc

append-Split : (xs ys a b : List Ptr) (y : Ptr) → xs ++ ys ≡ a ++ (y ∷ b) → Split xs ys a b y
unfolding Split
append-Split [] ys a b y e = inl (a, refl, e)
append-Split (x ∷ xs) ys [] b y e = inr (xs, cc, cc)
append-Split (x ∷ xs) ys (z ∷ a) b y e = elim (append-Split xs ys a b y (tail_eq e)) [
  | inl (c, f, g) ↦ inl (c, cc, g)
  | inr (c, f, g) ↦ inr (c, cc, g)
]

only_one : (x y : Ptr) (d b : List Ptr) → (x ∷ []) ≡ d ++ (y ∷ b) → (d ≡ []) × (x ≡ y) × (b ≡ [])
only_one x y [] b e = (refl, cc, cc)
only_one x y (z ∷ []) b e = cc
only_one x y (z ∷ (u ∷ d)) b e = cc

-- The list of tasks seen from `y` instead of `cur`.
Turned : (l : List Ptr) (cur : Ptr) (r : List Ptr) (y : Ptr) (w : List Ptr) → Type 0
Turned l cur r y w =
    (l' r' : List Ptr) × (l ++ (cur ∷ r) ≡ l' ++ (y ∷ r')) × (r' ++ (l' ++ (y ∷ [])) ≡ w)

turn :
    (l : List Ptr) (cur : Ptr) (r a : List Ptr) (y : Ptr) (b : List Ptr)
    → r ++ (l ++ (cur ∷ [])) ≡ a ++ (y ∷ b)
    → Turned l cur r y (b ++ (a ++ (y ∷ [])))
unfolding Turned Split
turn l cur r a y b e = elim (append-Split r (l ++ (cur ∷ [])) a b y e) [
  | inr (c, f, g) ↦ (l ++ (cur ∷ a), c, rw f (simp append_assoc), rw g (simp append_assoc))
  | inl (c, f, g) ↦ elim (append-Split l (cur ∷ []) c b y g) [
    | inr (d, h, k) ↦ (c, d ++ (cur ∷ r), rw h (simp append_assoc), rw (f, k) (simp append_assoc))
    | inl (d, h, k) ↦
        let (none_left, same, last) = only_one cur y d b k in
        (l, r, rw same refl, rw (last, f, h, none_left) (simp (append_assoc, append-nil)))
  ]
]

same_count :
    (l : List Ptr) (cur : Ptr) (r l' : List Ptr) (y : Ptr) (r' : List Ptr)
    → l ++ (cur ∷ r) ≡ l' ++ (y ∷ r')
    → length (r' ++ l') ≡ length (r ++ l)
same_count l cur r l' y r' e = omega (
  arith,
  ap length e,
  length-append l (cur ∷ r),
  length-append l' (y ∷ r'),
  length-append r l,
  length-append r' l',
)

-- The first ready task in front of `x`, or `x`.
pick_before :
    (m : Ptr → Task) (a : List Ptr) (x : Ptr) (b : List Ptr)
    → is_ready (m x) ≡ true
    → (pick m (a ++ (x ∷ b)) ≡ x)
      ⊎ ((a1 : List Ptr) × (y : Ptr) × (a2 : List Ptr) × (a ≡ a1 ++ (y ∷ a2))
          × (pick m (a ++ (x ∷ b)) ≡ y))
pick_before m [] x b ready = inl (ground arith)
pick_before m (z ∷ a) x b ready = elim (Bool-cases (is_ready (m z))) [
  | inl now ↦ inr ([], z, a, refl, ground arith)
  | inr later ↦ elim (pick_before m a x b ready) [
    | inl e ↦ inl (ground (arith, e))
    | inr (a1, y, a2, e, f) ↦ inr (z ∷ a1, y, a2, cc, ground (arith, f))
  ]
]

-- The task that has its turn after `n` calls, each from the task that the one before has chosen.
unfoldable pub turns : (fuel n : ℕ) → Ptr → Cmd Kernel Ptr
turns fuel zero cur = pure cur
turns fuel (suc n) cur = do p ← get_next_runnable_task fuel cur; turns fuel n p

fair :
    (k fuel : ℕ) (s : Kernel) (l : List Ptr) (cur : Ptr) (r a : List Ptr) (x : Ptr) (b : List Ptr)
    → IsTaskList s (l ++ (cur ∷ r))
    → 0 < length (r ++ l)
    → length (r ++ l) < fuel
    → r ++ (l ++ (cur ∷ [])) ≡ a ++ (x ∷ b)
    → is_ready (s.mem x) ≡ true
    → length a < k
    → (n : ℕ) × (n ≤ length a) × (turns fuel (suc n) cur s ≡ ok x s)
unfolding turns Turned
fair zero fuel s l cur r a x b is many few e ready lt = absurd (omega arith)
fair (suc k) fuel s l cur r a x b is many few e ready lt =
    let first = get_next_runnable_task-pick fuel s l cur r is many few in
    elim (pick_before s.mem a x b ready) [
      | inl now ↦ (0, omega arith, ground (arith, first, ap (pick s.mem) e, now))
      | inr (a1, y, a2, f, chosen) ↦
          let assoc : r ++ (l ++ (cur ∷ [])) ≡ a1 ++ (y ∷ (a2 ++ (x ∷ b))) =
            e ∙ rw f (simp append_assoc) in
          let (l', r', whole, round) = turn l cur r a1 y (a2 ++ (x ∷ b)) assoc in
          let same : length (r' ++ l') ≡ length (r ++ l) = same_count l cur r l' y r' whole in
          let shorter : length a2 < length a =
            omega (arith, ap length f, length-append a1 (y ∷ a2)) in
          let (n, le, rest) =
            fair k fuel s l' y r' a2 x (b ++ (a1 ++ (y ∷ [])))
              (subst (λ t. IsTaskList s t) whole is) (omega (arith, same)) (omega (arith, same))
              (round ∙ simp append_assoc) ready (omega (arith, shorter)) in
          (suc n, omega (arith, shorter), ground (arith, first, ap (pick s.mem) e, chosen, rest))
    ]

has-split : (x : Ptr) (w : List Ptr) → has x w ≡ true → (a b : List Ptr) × (w ≡ a ++ (x ∷ b))
has-split x [] h = cc
has-split x (z ∷ w) h = elim (Bool-cases (x == z)) [
  | inl e ↦ let same : x ≡ z = ground arith in ([], w, rw same refl)
  | inr ne ↦
      let (a, b, f) = has-split x w (ground arith) in (z ∷ a, b, ap (λ (t : List Ptr). z ∷ t) f)
]

-- As long as nothing else changes, `get_next_runnable_task` lets no task that is ready wait for ever: of a list of
-- several, called again and again, each time for the task that it has chosen before, it chooses every task that
-- is ready (runnable and not the idle task) within as many calls as there are tasks.
pub turns-reaches :
    (fuel : ℕ) (s : Kernel) (l : List Ptr) (cur : Ptr) (r : List Ptr) (x : Ptr)
    → IsTaskList s (l ++ (cur ∷ r))
    → 0 < length (r ++ l)
    → length (r ++ l) < fuel
    → has x (l ++ (cur ∷ r)) ≡ true
    → is_ready (s.mem x) ≡ true
    → (n : ℕ) × (n ≤ length (r ++ l)) × (turns fuel (suc n) cur s ≡ ok x s)
turns-reaches fuel s l cur r x is many few member ready =
    let in_turn : has x (r ++ (l ++ (cur ∷ []))) ≡ true = ground (
      arith,
      has-append x l (cur ∷ r),
      has-append x r (l ++ (cur ∷ [])),
      has-append x l (cur ∷ []),
    ) in
    let (a, b, e) = has-split x (r ++ (l ++ (cur ∷ []))) in_turn in
    let (n, le, found) =
      fair (suc (length a)) fuel s l cur r a x b is many few e ready (omega arith) in
    let count = ap length e in
    (
      n,
      omega (
        arith,
        le,
        count,
        length-append r (l ++ (cur ∷ [])),
        length-append l (cur ∷ []),
        length-append r l,
        length-append a (x ∷ b),
      ),
      found,
    )
