-- ===== src/Sched/TaskList/Chain.antt =====
-- When the `prev` and `next` pointers of the tasks in memory form a list.
use cyb_os.Prelude.{◌≡◌, refl, ◌∙◌, ◌≢◌, Bool, true, false, ◌||◌, List, [], ◌∷◌, ◌++◌, arith, ◌==◌}
use cyb_os.Prelude.Run.{Run, ok, fault, panic, out_of_fuel, and_then}
use cyb_os.Sched.State.{Ptr, null, Task, Kernel}

-- Total correctness of a run: it comes to its end, with a postcondition.
abbrev pub Returns : {A : Type 0} → (A → Kernel → Type 0) → Run Kernel A → Type 0
Returns P (ok a s) = P a s
Returns P fault = ⊥
Returns P panic = ⊥
Returns P out_of_fuel = ⊥

abbrev pub has : Ptr → List Ptr → Bool
has node [] = false
has node (first ∷ rest) = (node == first) || has node rest

-- The first address, or NULL.
abbrev pub first_of_list : List Ptr → Ptr
first_of_list [] = null
first_of_list (a ∷ l) = a

abbrev pub last_of : Ptr → List Ptr → Ptr
last_of a [] = a
last_of a (b ∷ bs) = last_of b bs

-- From a node behind `prev` the pointers lead through distinct nodes, and end in NULL.
abbrev pub Chain : (Ptr → Task) → Ptr → List Ptr → Type 0
Chain m prev [] = Unit {0}
Chain m prev (a ∷ l) =
    (a ≢ null)
    × (has a l ≡ false)
    × ((m a).prev ≡ prev)
    × ((m a).next ≡ first_of_list l)
    × Chain m a l

-- `_task_list` heads the tasks `xs`, in this order.
pub record IsTaskList (s : Kernel) (xs : List Ptr) : Type 0 where
  pub head : s.task_list ≡ first_of_list xs
  pub chain : Chain s.mem null xs

pub has-append :
    (node : Ptr) (front back : List Ptr)
    → has node (front ++ back) ≡ (has node front || has node back)
has-append node [] back = refl
has-append node (first ∷ front) back = ground (arith, has-append node front back)

-- A node that is not in a list is not its last.
pub ne-last_of : (a b : Ptr) (bs : List Ptr) → has a (b ∷ bs) ≡ false → a ≢ last_of b bs
ne-last_of a b [] h = ground arith
ne-last_of a b (c ∷ cs) h = ne-last_of a c cs (ground arith)

-- The list survives a change that spares its nodes.
pub Chain-frame :
    (m g : Ptr → Task) (prev : Ptr) (xs : List Ptr)
    → Chain m prev xs
    → ((a : Ptr) → has a xs ≡ true → g a ≡ m a)
    → Chain g prev xs
Chain-frame m g prev [] c same = tt
Chain-frame m g prev (a ∷ l) c same =
    let e : g a ≡ m a = same a (ground arith) in
    (c.0, c.1, rw e c.2, rw e c.3, Chain-frame m g a l c.4 (λ b h. same b (ground arith)))

-- The task that stands behind a front is what that front's last node points to.
pub Chain-back :
    (m : Ptr → Task) (prev a : Ptr) (l r : List Ptr)
    → Chain m prev ((a ∷ l) ++ r)
    → Chain m (last_of a l) r
Chain-back m prev a [] r c = c.4
Chain-back m prev a (b ∷ bs) r c = Chain-back m a b bs r c.4

pub last-ne-null :
    (m : Ptr → Task) (prev a : Ptr) (l r : List Ptr)
    → Chain m prev ((a ∷ l) ++ r)
    → last_of a l ≢ null
last-ne-null m prev a [] r c = c.0
last-ne-null m prev a (b ∷ bs) r c = last-ne-null m a b bs r c.4

pub Returns-mono :
    {A : Type 0} (P Q : A → Kernel → Type 0) (r : Run Kernel A)
    → Returns P r
    → ((a : A) (s : Kernel) → P a s → Q a s)
    → Returns Q r
Returns-mono P Q (ok a s) p weaken = weaken a s p
Returns-mono P Q fault p weaken = p
Returns-mono P Q panic p weaken = p
Returns-mono P Q out_of_fuel p weaken = p

pub Returns-bind :
    {A B : Type 0} (P : A → Kernel → Type 0) (Q : B → Kernel → Type 0) (r : Run Kernel A)
    (k : A → Kernel → Run Kernel B)
    → Returns P r
    → ((a : A) (s : Kernel) → P a s → Returns Q (k a s))
    → Returns Q (and_then r k)
Returns-bind P Q (ok a s) k p next = next a s p
Returns-bind P Q fault k p next = p
Returns-bind P Q panic k p next = p
Returns-bind P Q out_of_fuel k p next = p

-- The list survives a change that spares the pointers.
pub Chain-links :
    (m g : Ptr → Task) (prev : Ptr) (xs : List Ptr)
    → ((p : Ptr) → ((g p).prev ≡ (m p).prev) × ((g p).next ≡ (m p).next))
    → Chain m prev xs
    → Chain g prev xs
Chain-links m g prev [] same c = tt
Chain-links m g prev (a ∷ l) same c =
    (c.0, c.1, (same a).0 ∙ c.2, (same a).1 ∙ c.3, Chain-links m g a l same c.4)

pub has-apart : (p q : Ptr) (l : List Ptr) → has p l ≡ false → has q l ≡ true → (q == p) ≡ false
has-apart p q l out h = ground arith
