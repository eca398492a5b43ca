-- ===== src/Klib/BitField/Digits.antt =====
-- `bsf`, `btr` and `bts`, digit by digit.
use native.Mathlib.Nat.{pow-suc, mod-eq_of_lt}
use cyb_os.Prelude.{
  ℕ, zero, suc, ◌-◌, ◌/◌, ◌%◌, ◌^◌, ◌<◌, ◌≡◌, ◌≢◌, true, false, arith, ◌==◌, if◌then◌else◌, inl,
  inr, Bool-cases,
}
use cyb_os.Word.Bits.{bit, bit-bit_or, bit-bit_and, bit-pow, bit-not, bit-lt-two}
use cyb_os.Klib.BitField.{lowest, bsf, btr, bts}

pow-lt : (k w : ℕ) → k < w → 2 ^ k < 2 ^ w
pow-lt zero zero h = absurd (omega arith)
pow-lt zero (suc zero) h = omega (arith, pow-suc 2 0)
pow-lt zero (suc (suc w)) h = omega (arith, pow-suc 2 (suc w), pow-lt zero (suc w) (omega arith))
pow-lt (suc k) zero h = absurd (omega arith)
pow-lt (suc k) (suc w) h = omega (arith, pow-suc 2 k, pow-suc 2 w, pow-lt k w (omega arith))

pub bit-bts : (x i j : ℕ) → i < 32 → bit (bts x i) j ≡ (if i == j then 1 else bit x j)
unfolding bts
bit-bts x i j h =
    ground
      (arith, mod-eq_of_lt {n = i} {m = 32} h, bit-bit_or x (2 ^ i) j, bit-pow i j, bit-lt-two x j)

pub bit-btr : (x i j : ℕ) → i < 32 → j < 32 → bit (btr x i) j ≡ (if i == j then 0 else bit x j)
unfolding btr
bit-btr x i j h k = rw (mod-eq_of_lt {n = i} {m = 32} h) (
    ground (
      arith,
      bit-bit_and x (2 ^ 32 - 1 - 2 ^ i) j,
      bit-not 32 (2 ^ i) j (pow-lt i 32 h) k,
      bit-pow i j,
      bit-lt-two x j,
    ))

-- Digits below the lowest of an even word.
below_half :
    (x : ℕ) {n : ℕ}
    → (x % 2 == 1) ≡ false
    → ((j : ℕ) → j < n → bit (x / 2) j ≡ 0)
    → (j : ℕ) → j < suc n
    → bit x j ≡ 0
unfolding bit
below_half x even below zero h = ground arith
below_half x even below (suc j) h = below j (omega arith)

lowest_odd : (w x : ℕ) → (x % 2 == 1) ≡ true → lowest (suc w) x ≡ 0
unfolding lowest
lowest_odd w x odd = rw odd

lowest_even : (w x : ℕ) → (x % 2 == 1) ≡ false → lowest (suc w) x ≡ suc (lowest w (x / 2))
unfolding lowest
lowest_even w x even = rw even

lowest_lem :
    (w x : ℕ)
    → x ≢ 0
    → x < 2 ^ w
    → (lowest w x < w) × (bit x (lowest w x) ≡ 1) × ((j : ℕ) → j < lowest w x → bit x j ≡ 0)
unfolding bit
lowest_lem zero x ne h = absurd (omega arith)
lowest_lem (suc w) x ne h = elim (Bool-cases (x % 2 == 1)) [
  | inl odd ↦ rw (lowest_odd w x odd) (omega arith, ground arith, λ j k. absurd (omega arith))
  | inr even ↦
      let (inside, set, below) = lowest_lem w (x / 2) (ground arith) (omega (arith, pow-suc 2 w)) in
      rw (lowest_even w x even) (omega arith, set, below_half x even below)
]

-- On a word of 32 digits that is not zero, `bsf` is the number of its lowest digit that is set.
pub bsf-lowest :
    (x : ℕ)
    → x ≢ 0
    → x < 2 ^ 32
    → (bsf x < 32) × (bit x (bsf x) ≡ 1) × ((j : ℕ) → j < bsf x → bit x j ≡ 0)
unfolding bsf
bsf-lowest x ne h = let e : (x == 0) ≡ false = ground arith in rw e (lowest_lem 32 x ne h)
