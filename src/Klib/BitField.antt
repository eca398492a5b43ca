-- ===== src/Klib/BitField.antt =====
-- `bsf`, `btr` and `bts` of klib.c, each one instruction of the processor, on words of 32 digits.
pub mod Digits
use Prim.Native.Nat.{bit_and, bit_or}
use cyb_os.Prelude.{ℕ, zero, suc, ◌+◌, ◌-◌, ◌/◌, ◌%◌, ◌^◌, ◌==◌, if◌then◌else◌}

-- The lowest digit that is set.
unfoldable pub lowest : ℕ → ℕ → ℕ
lowest zero x = 0
lowest (suc w) x = if x % 2 == 1 then 0 else suc (lowest w (x / 2))

-- -1 on an empty field.
unfoldable pub bsf : ℕ → ℕ
unfolding lowest
bsf bit_field = if bit_field == 0 then 2 ^ 32 - 1 else lowest 32 bit_field

unfoldable pub btr : ℕ → ℕ → ℕ
btr bit_field bit_index = bit_and bit_field (2 ^ 32 - 1 - 2 ^ (bit_index % 32))

unfoldable pub bts : ℕ → ℕ → ℕ
bts bit_field bit_index = bit_or bit_field (2 ^ (bit_index % 32))
