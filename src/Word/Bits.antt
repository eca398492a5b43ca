-- ===== src/Word/Bits.antt =====
-- One binary digit of a word, and what `|`, `&` and `~` do to it.
use Prim.Native.Nat.{bit_and, bit_or, digits, bit_and-bitwise, bit_or-bitwise}
use native.Mathlib.Nat.{pow-suc, div-div-eq-div-mul, mod-eq-sub-div-mul, div-mul-le_self, mul_comm}
use cyb_os.Prelude.{
  ℕ, zero, suc, ◌+◌, ◌-◌, ◌*◌, ◌/◌, ◌%◌, ◌^◌, ◌≤◌, ◌<◌, min, max, ◌≡◌, refl, arith, ◌==◌, ap,
  if◌then◌else◌,
}

-- Digit `i` of `x`.
unfoldable pub bit : ℕ → ℕ → ℕ
bit x zero = x % 2
bit x (suc i) = bit (x / 2) i

-- The native operations are defined with fuel, one unit for each digit; what is left over does not count.
module _ (last : ℕ → ℕ) (op : ℕ → ℕ → ℕ) where
  spare_fuel : {n k : ℕ} (x y : ℕ) → x ≤ k → x ≤ n → digits last op k x y ≡ digits last op n x y
  spare_fuel {n = zero} {k = zero} x y le_k le_n = refl
  spare_fuel {n = zero} {k = suc k} x y le_k le_n =
      let none_left : x ≡ 0 = omega (arith, le_n) in rw none_left refl
  spare_fuel {n = suc n} {k = zero} x y le_k le_n =
      let none_left : x ≡ 0 = omega (arith, le_k) in rw none_left refl
  spare_fuel {n = suc n} {k = suc k} zero y le_k le_n = refl
  spare_fuel {n = suc n} {k = suc k} (suc x) y le_k le_n = omega (
    arith,
    spare_fuel {n = n} {k = k} (suc x / 2) (y / 2) (omega (arith, le_k)) (omega (arith, le_n)),
  )

pub zero-bit_or : (y : ℕ) → bit_or 0 y ≡ y
zero-bit_or y = bit_or-bitwise 0 y

zero-bit_and : (y : ℕ) → bit_and 0 y ≡ 0
zero-bit_and y = bit_and-bitwise 0 y

-- The lowest digit, and the digits above it.
pub bit_or_step : (x y : ℕ) → bit_or x y ≡ max (x % 2) (y % 2) + 2 * bit_or (x / 2) (y / 2)
bit_or_step zero y = omega (arith, zero-bit_or (y / 2), zero-bit_or y)
bit_or_step (suc x) y =
    let halves = suc x / 2 in
    omega (
      arith,
      spare_fuel (λ y. y) max {n = halves} {k = x} halves (y / 2) (omega arith) (omega arith),
      bit_or-bitwise halves (y / 2),
      bit_or-bitwise (suc x) y,
    )

pub bit_and_step : (x y : ℕ) → bit_and x y ≡ min (x % 2) (y % 2) + 2 * bit_and (x / 2) (y / 2)
bit_and_step zero y = omega (arith, zero-bit_and (y / 2), zero-bit_and y)
bit_and_step (suc x) y =
    let halves = suc x / 2 in
    omega (
      arith,
      spare_fuel (λ y. zero) min {n = halves} {k = x} halves (y / 2) (omega arith) (omega arith),
      bit_and-bitwise halves (y / 2),
      bit_and-bitwise (suc x) y,
    )

half_or : (a b : ℕ) → bit_or a b / 2 ≡ bit_or (a / 2) (b / 2)
half_or a b = omega (arith, bit_or_step a b)

half_and : (a b : ℕ) → bit_and a b / 2 ≡ bit_and (a / 2) (b / 2)
half_and a b = omega (arith, bit_and_step a b)

-- `|` and `&` work digit by digit.
pub bit-bit_or : (a b i : ℕ) → bit (bit_or a b) i ≡ max (bit a i) (bit b i)
unfolding bit
bit-bit_or a b zero = omega (arith, bit_or_step a b)
bit-bit_or a b (suc i) = rw (half_or a b) (bit-bit_or (a / 2) (b / 2) i)

pub bit-bit_and : (a b i : ℕ) → bit (bit_and a b) i ≡ min (bit a i) (bit b i)
unfolding bit
bit-bit_and a b zero = omega (arith, bit_and_step a b)
bit-bit_and a b (suc i) = rw (half_and a b) (bit-bit_and (a / 2) (b / 2) i)

pub bit-lt-two : (x i : ℕ) → bit x i < 2
unfolding bit
bit-lt-two x zero = omega arith
bit-lt-two x (suc i) = bit-lt-two (x / 2) i

pub bit-zero : (i : ℕ) → bit 0 i ≡ 0
unfolding bit
bit-zero zero = refl
bit-zero (suc i) = bit-zero i

half_pow : (k : ℕ) → 2 ^ suc k / 2 ≡ 2 ^ k
half_pow k = omega (arith, pow-suc 2 k)

-- `1 << k` has one digit.
pub bit-pow : (k i : ℕ) → bit (2 ^ k) i ≡ (if k == i then 1 else 0)
unfolding bit
bit-pow zero zero = refl
bit-pow zero (suc i) = ground (arith, bit-zero i)
bit-pow (suc k) zero = ground (arith, pow-suc 2 k)
bit-pow (suc k) (suc i) = rw (half_pow k) (ground (arith, bit-pow k i))

-- `~x` in a word of `w` digits.
pub bit-not : (w x i : ℕ) → x < 2 ^ w → i < w → bit (2 ^ w - 1 - x) i ≡ 1 - bit x i
unfolding bit
bit-not zero x i h l = absurd (omega arith)
bit-not (suc w) x zero h l = omega (arith, pow-suc 2 w)
bit-not (suc w) x (suc i) h l =
    let e : (2 ^ suc w - 1 - x) / 2 ≡ 2 ^ w - 1 - x / 2 = omega (arith, pow-suc 2 w) in
    rw e (bit-not w (x / 2) i (omega (arith, pow-suc 2 w)) (omega arith))

-- A word that has a digit is not zero.
pub bit-ne-zero : (x i : ℕ) → bit x i ≡ 1 → 0 < x
unfolding bit
bit-ne-zero x zero h = omega arith
bit-ne-zero x (suc i) h = omega (arith, bit-ne-zero (x / 2) i h)

-- A word below `2 ^ w` has no digit from `w` on, and `|` and `&` keep that bound.
pub bit_or-lt : (w a b : ℕ) → a < 2 ^ w → b < 2 ^ w → bit_or a b < 2 ^ w
bit_or-lt zero a b h k = ground (arith, zero-bit_or b)
bit_or-lt (suc w) a b h k = omega (
  arith,
  bit_or_step a b,
  pow-suc 2 w,
  bit_or-lt w (a / 2) (b / 2) (omega (arith, pow-suc 2 w)) (omega (arith, pow-suc 2 w)),
)

bit_and-le_fuel : (n a b : ℕ) → a ≤ n → bit_and a b ≤ b
bit_and-le_fuel n zero b h = omega (arith, zero-bit_and b)
bit_and-le_fuel zero (suc a) b h = absurd (omega arith)
bit_and-le_fuel (suc n) (suc a) b h =
    omega (arith, bit_and_step (suc a) b, bit_and-le_fuel n (suc a / 2) (b / 2) (omega arith))

pub bit_and-le : (a b : ℕ) → bit_and a b ≤ b
bit_and-le a b = bit_and-le_fuel a a b (omega arith)

div_half : (x k : ℕ) → x / 2 / 2 ^ k ≡ x / 2 ^ suc k
div_half x k = rw (pow-suc 2 k, mul_comm (2 ^ k) 2) (div-div-eq-div-mul x 2 (2 ^ k))

half_shifted : (h k : ℕ) → h * 2 ^ suc k / 2 ≡ h * 2 ^ k
half_shifted h k = omega (arith, ap (λ (t : ℕ). h * t) (pow-suc 2 k))

bit_or-zero_fuel : (n a : ℕ) → a ≤ n → bit_or a 0 ≡ a
bit_or-zero_fuel n zero h = zero-bit_or 0
bit_or-zero_fuel zero (suc a) h = absurd (omega arith)
bit_or-zero_fuel (suc n) (suc a) h =
    omega (arith, bit_or_step (suc a) 0, bit_or-zero_fuel n (suc a / 2) (omega arith))

-- A low field beside a high one: `|` adds them.
pub bit_or-shifted : (k h l : ℕ) → l < 2 ^ k → bit_or (h * 2 ^ k) l ≡ h * 2 ^ k + l
bit_or-shifted zero h l b =
    let e : l ≡ 0 = omega arith in
    rw e (omega (arith, bit_or-zero_fuel (h * 1) (h * 1) (omega arith)))
bit_or-shifted (suc k) h l b =
    let e : bit_or (h * 2 ^ suc k / 2) (l / 2) ≡ h * 2 ^ k + l / 2 =
      rw (half_shifted h k) (bit_or-shifted k h (l / 2) (omega (arith, pow-suc 2 k))) in
    omega (arith, bit_or_step (h * 2 ^ suc k) l, e, ap (λ (t : ℕ). h * t) (pow-suc 2 k))

mod_half : (x k : ℕ) → x % 2 ^ suc k ≡ x / 2 % 2 ^ k * 2 + x % 2
mod_half x k = omega (
  arith,
  pow-suc 2 k,
  mod-eq-sub-div-mul x (2 ^ suc k),
  mod-eq-sub-div-mul (x / 2) (2 ^ k),
  div-mul-le_self (x / 2) (2 ^ k),
  div_half x k,
  ap (λ (t : ℕ). t * 2 ^ k) (div_half x k),
  ap (λ (t : ℕ). x / 2 ^ suc k * t) (pow-suc 2 k),
)

-- The masks of a low field and of a high one.
pub bit_and-ones : (k x : ℕ) → bit_and x (2 ^ k - 1) ≡ x % 2 ^ k
bit_and-ones zero x = omega (arith, bit_and-le x 0)
bit_and-ones (suc k) x =
    let e : (2 ^ suc k - 1) / 2 ≡ 2 ^ k - 1 = omega (arith, pow-suc 2 k) in
    let f : bit_and (x / 2) ((2 ^ suc k - 1) / 2) ≡ x / 2 % 2 ^ k = rw e (bit_and-ones k (x / 2)) in
    omega (arith, bit_and_step x (2 ^ suc k - 1), f, mod_half x k, pow-suc 2 k, pow_pos k)
  where
    pow_pos : (k : ℕ) → 0 < 2 ^ k
    pow_pos zero = omega arith
    pow_pos (suc k) = omega (arith, pow-suc 2 k, pow_pos k)

pub bit_and-shifted : (k x m : ℕ) → bit_and x (m * 2 ^ k) ≡ bit_and (x / 2 ^ k) m * 2 ^ k
bit_and-shifted zero x m =
    let e : m * 1 ≡ m = omega arith in
    let f : x / 1 ≡ x = omega arith in
    let g : bit_and x m * 1 ≡ bit_and x m = omega arith in rw (e, f, g)
bit_and-shifted (suc k) x m =
    let e : bit_and (x / 2) (m * 2 ^ suc k / 2) ≡ bit_and (x / 2 ^ suc k) m * 2 ^ k =
      rw (half_shifted m k, ← div_half x k) (bit_and-shifted k (x / 2) m) in
    omega (
      arith,
      bit_and_step x (m * 2 ^ suc k),
      e,
      ap (λ (t : ℕ). m * t) (pow-suc 2 k),
      ap (λ (t : ℕ). bit_and (x / 2 ^ suc k) m * t) (pow-suc 2 k),
    )
