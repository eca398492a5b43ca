-- ===== src/Mutex.antt =====
-- Mutexes: mutex.c with the two functions of mutexasm.S. Bit 0 of a word is set while somebody holds the mutex.
pub mod Exclusion
use cyb_os.Prelude.{ℕ, ◌+◌, ◌-◌, ◌%◌}

-- `bts`: the old bit, and the word with the bit set.
unfoldable pub mutex_bts : ℕ → ℕ × ℕ
mutex_bts word = (word % 2, word - word % 2 + 1)

-- `btr`: the old bit, and the word with the bit cleared.
unfoldable pub mutex_btr : ℕ → ℕ × ℕ
mutex_btr word = (word % 2, word - word % 2)

unfoldable pub mutex_lock : ℕ → ℕ × ℕ
unfolding mutex_bts
mutex_lock word = mutex_bts word

unfoldable pub mutex_unlock : ℕ → ℕ × ℕ
unfolding mutex_btr
mutex_unlock word = mutex_btr word
