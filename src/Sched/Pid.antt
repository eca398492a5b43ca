-- ===== src/Sched/Pid.antt =====
-- `allocate_new_pid` of schedule.c.
pub mod Unused
use cyb_os.Prelude.{ℕ, zero, suc, ◌+◌, ◌%◌, ◌^◌, Bool, true, false, ◌==◌, ltb, if◌then◌else◌}
use cyb_os.Prelude.Run.{out_of_fuel, Cmd, pure, ◌>>=◌, ◌>>◌, gets, modify}
use cyb_os.Sched.State.{Ptr, null, Kernel, pid_idle, max_pid, load, disable_ints, restore_ints}

-- `current_pid` is an `int`, and starts at -1: `<` on bit patterns of 32 digits.
abbrev pub signed_lt : ℕ → ℕ → Bool
signed_lt a b = ltb ((a + 2 ^ 31) % 2 ^ 32) ((b + 2 ^ 31) % 2 ^ 32)

unfoldable pub next_pid : ℕ → ℕ
next_pid p = if signed_lt p max_pid then (p + 1) % 2 ^ 32 else pid_idle

-- The `for` loop: whether it finds a task with this pid. It stops at the last task, without
-- looking at it.
unfoldable pub pid_in_use : ℕ → (pid : ℕ) → Ptr → Cmd Kernel Bool
pid_in_use zero pid p = λ _. out_of_fuel
pid_in_use (suc fuel) pid p = do
  t ← load p
  let rest = pid_in_use fuel pid t.next
  if t.next == null then pure false else if t.pid == pid then pure true else rest

-- The `do … while` loop. `rounds` bounds the pids that are tried, `fuel` the walk along the tasks.
unfoldable pub find_pid : (rounds fuel : ℕ) → Cmd Kernel (Unit {0})
find_pid zero fuel = λ _. out_of_fuel
find_pid (suc rounds) fuel = do
  modify (λ s. record s { current_pid = next_pid s.current_pid })
  let rest = find_pid rounds fuel
  list ← gets (λ s. s.task_list)
  pid ← gets (λ s. s.current_pid)
  if list == null
      then pure tt
      else do used ← pid_in_use fuel pid list; if used then rest else pure tt

unfoldable pub allocate_new_pid : (rounds fuel : ℕ) → Cmd Kernel ℕ
allocate_new_pid rounds fuel = do
  was ← disable_ints
  find_pid rounds fuel
  restore_ints was
  gets (λ s. s.current_pid)
