-- ===== src/Word/Single.antt =====
-- Words of one bit, and words of ones.
use Prim.Native.Nat.{bit_and}
use native.Mathlib.Nat.{pow-suc}
use cyb_os.Prelude.{ℕ, zero, suc, ◌-◌, ◌*◌, ◌/◌, ◌^◌, ◌<◌, ◌≡◌, ap, arith, ◌==◌}
use cyb_os.Word.Bits.{bit, bit_and_step, bit_and-le, bit-lt-two}

pub pow_pos : (k : ℕ) → 0 < 2 ^ k
pow_pos zero = omega arith
pow_pos (suc k) = omega (arith, pow-suc 2 k, pow_pos k)

pub bit_and-pow : (x k : ℕ) → bit_and x (2 ^ k) ≡ bit x k * 2 ^ k
unfolding bit
bit_and-pow x zero = omega (arith, bit_and_step x 1, bit_and-le (x / 2) 0)
bit_and-pow x (suc k) =
    let e : 2 ^ suc k / 2 ≡ 2 ^ k = omega (arith, pow-suc 2 k) in
    let f : bit_and (x / 2) (2 ^ suc k / 2) ≡ bit (x / 2) k * 2 ^ k =
      rw e (bit_and-pow (x / 2) k) in
    omega (
      arith,
      bit_and_step x (2 ^ suc k),
      f,
      pow-suc 2 k,
      ap (λ (t : ℕ). bit (x / 2) k * t) (pow-suc 2 k),
    )

-- The test of one bit.
pub is_clear : (x k : ℕ) → (bit_and x (2 ^ k) == 0) ≡ (bit x k == 0)
is_clear x k = go (bit x k) (bit-lt-two x k) (bit_and-pow x k)
  where
    go : (b : ℕ) → b < 2 → bit_and x (2 ^ k) ≡ b * 2 ^ k → (bit_and x (2 ^ k) == 0) ≡ (b == 0)
    go zero h e = ground (arith, pow_pos k)
    go (suc zero) h e = ground (arith, pow_pos k)
    go (suc (suc b)) h e = absurd (omega (arith, h))

pub all_ones : (w x : ℕ) → x < 2 ^ w → ((i : ℕ) → i < w → bit x i ≡ 1) → x ≡ 2 ^ w - 1
unfolding bit
all_ones zero x h ones = omega arith
all_ones (suc w) x h ones = omega (
  arith,
  ones 0 (omega arith),
  all_ones w (x / 2) (omega (arith, pow-suc 2 w)) (λ i l. ones (suc i) (omega arith)),
  pow-suc 2 w,
  pow_pos w,
)
