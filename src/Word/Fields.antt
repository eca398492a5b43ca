-- ===== src/Word/Fields.antt =====
-- Words put together from fields, the low ones first.
use Prim.Native.Nat.{bit_or}
use native.Mathlib.Nat.{pow-suc}
use cyb_os.Prelude.{ℕ, zero, suc, ◌+◌, ◌*◌, ◌/◌, ◌^◌, ◌<◌, ◌≡◌, ap, arith}
use cyb_os.Word.Bits.{bit_or_step, zero-bit_or}

-- `a | h << k`, above the digits of `a`.
pub bit_or-above : (k a h : ℕ) → a < 2 ^ k → bit_or a (h * 2 ^ k) ≡ a + h * 2 ^ k
bit_or-above zero zero h l = omega (arith, zero-bit_or (h * 1))
bit_or-above zero (suc a) h l = absurd (omega (arith, l))
bit_or-above (suc k) a h l =
    let e : h * 2 ^ suc k ≡ h * 2 ^ k * 2 = omega (arith, ap (λ (t : ℕ). h * t) (pow-suc 2 k)) in
    let half : h * 2 ^ suc k / 2 ≡ h * 2 ^ k = omega (arith, e) in
    let f : bit_or (a / 2) (h * 2 ^ suc k / 2) ≡ a / 2 + h * 2 ^ k =
      rw half (bit_or-above k (a / 2) h (omega (arith, l, pow-suc 2 k))) in
    omega (arith, bit_or_step a (h * 2 ^ suc k), f, e)
