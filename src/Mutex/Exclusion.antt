-- ===== src/Mutex/Exclusion.antt =====
-- Processes that share a mutex, one call at a time in any order.
use cyb_os.Prelude.{ℕ, ◌%◌, ◌≡◌, arith, ◌==◌, Bool, true, false, if◌then◌else◌, ◌↔◌}
use native.Mathlib.Decide.{ℕ_discrete}
use cyb_os.Mutex.{mutex_lock, mutex_unlock}

-- The word of the mutex, and who is in the critical section.
pub record Shared : Type 0 where
  pub word : ℕ
  pub inside : ℕ → Bool

abbrev pub mark : (ℕ → Bool) → ℕ → Bool → ℕ → Bool
mark inside i b j = if j == i then b else inside j

-- A process enters where `mutex_lock` returns 0; where it returns 1 the process stays outside. Only a process that is
-- inside calls `mutex_unlock`.
pub data Step (s : Shared) : Shared → Type 0 where
  enter :
      (i : ℕ)
      → (mutex_lock s.word).0 ≡ 0
      → Step s (record { word = (mutex_lock s.word).1; inside = mark s.inside i true })
  refused : (i : ℕ) → (mutex_lock s.word).0 ≡ 1 → Step s (record s { word = (mutex_lock s.word).1 })
  leave :
      (i : ℕ)
      → s.inside i ≡ true
      → Step s (record { word = (mutex_unlock s.word).1; inside = mark s.inside i false })

-- The mutex is free at the start.
pub data Reach : Shared → Type 0 where
  start : (word : ℕ) → word % 2 ≡ 0 → Reach (record { word = word; inside = λ _. false })
  next : {s t : Shared} → Reach s → Step s t → Reach t

-- Who is inside is alone there and has set the bit; and while the bit is set somebody is inside.
record Inv (s : Shared) : Type 0 where
  alone : (i j : ℕ) → s.inside i ≡ true → s.inside j ≡ true → i ≡ j
  held : (i : ℕ) → s.inside i ≡ true → s.word % 2 ≡ 1
  holder : s.word % 2 ≡ 1 → (i : ℕ) × (s.inside i ≡ true)

Step-Inv : {s t : Shared} → Step s t → Inv s → Inv t
unfolding mutex_lock mutex_unlock
Step-Inv {s} (enter i free) inv = record {
  alone = λ j k h g. ground (arith, inv.held j, inv.held k);
  held = λ j h. omega arith;
  holder = λ h. (i, ground arith);
}
Step-Inv {s} (refused i taken) inv = record {
  alone = inv.alone;
  held = λ j h. omega arith;
  holder = λ h. inv.holder taken;
}
Step-Inv {s} (leave i inside) inv = record {
  alone = λ j k h g. ground (arith, inv.alone j k);
  held = λ j h. ground (arith, inv.alone i j);
  holder = λ h. absurd (omega arith);
}

Reach-Inv : {s : Shared} → Reach s → Inv s
Reach-Inv (start word free) = record {
  alone = λ i j h g. cc;
  held = λ i h. cc;
  holder = λ h. absurd (omega arith);
}
Reach-Inv (next r st) = Step-Inv st (Reach-Inv r)

free_word : (s : Shared) → Inv s → ((i : ℕ) → s.inside i ≡ false) → s.word % 2 ≡ 0
free_word s inv nobody = elim (ℕ_discrete (s.word % 2) 1) [
  | yes set ↦ let (i, h) = inv.holder set in absurd (cc (nobody i))
  | no unset ↦ omega arith
]

-- In every order of calls of `mutex_lock` and `mutex_unlock` by any number of processes, from a free mutex on and where
-- only a process that is inside unlocks: two processes are never inside together, and the next call of `mutex_lock`
-- returns 0 exactly when nobody is inside.
pub mutual_exclusion :
    {s : Shared}
    → Reach s
    → ((i j : ℕ) → s.inside i ≡ true → s.inside j ≡ true → i ≡ j)
      × (((mutex_lock s.word).0 ≡ 0) ↔ ((i : ℕ) → s.inside i ≡ false))
unfolding mutex_lock
mutual_exclusion {s} r =
    let inv = Reach-Inv r in
    (inv.alone, (λ free i. ground (arith, inv.held i), λ nobody. free_word s inv nobody))
