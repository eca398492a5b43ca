-- ===== src/Mem/Bitmap/Mark.antt =====
-- `bm_set` and `bm_clear` change the bit of one frame.
use Prim.Native.Nat.{bit_and, bit_or}
use native.Mathlib.Nat.{pow-suc}
use cyb_os.Prelude.{
  ℕ, zero, suc, ◌-◌, ◌/◌, ◌%◌, ◌^◌, ◌<◌, ◌≡◌, refl, ap, List, [], ◌∷◌, some, ◌==◌, if◌then◌else◌,
  get_elem?, set, arith, length, get_or,
}
use cyb_os.Prelude.Run.{ok}
use cyb_os.Word.Bits.{bit, bit-lt-two, bit-bit_or, bit-bit_and, bit-pow, bit-not}
use cyb_os.Word.Single.{pow_pos}
use cyb_os.Mem.Bitmap.{Bitmap, full, bm_set, bm_clear, is_below}

-- The bit of a frame: 1 when it is taken.
unfoldable pub used : List ℕ → ℕ → ℕ
used map frame = bit (get_or map (frame / 32) 0) (frame % 32)

get_elem?-get_or : (map : List ℕ) (i : ℕ) → i < length map → get_elem? map i ≡ some (get_or map i 0)
get_elem?-get_or [] i h = absurd (omega (arith, h))
get_elem?-get_or (w ∷ map) zero h = refl
get_elem?-get_or (w ∷ map) (suc i) h = get_elem?-get_or map i (omega (arith, h))

get_or-set :
    (map : List ℕ) (i k w : ℕ)
    → i < length map
    → get_or (set map i w) k 0 ≡ (if k == i then w else get_or map k 0)
get_or-set [] i k w h = absurd (omega (arith, h))
get_or-set (x ∷ map) zero zero w h = ground arith
get_or-set (x ∷ map) zero (suc k) w h = ground arith
get_or-set (x ∷ map) (suc i) zero w h = ground arith
get_or-set (x ∷ map) (suc i) (suc k) w h = ground (arith, get_or-set map i k w (omega (arith, h)))

pow-lt : (w o : ℕ) → o < w → 2 ^ o < 2 ^ w
pow-lt zero o h = absurd (omega (arith, h))
pow-lt (suc w) zero h = omega (arith, pow-suc 2 w, pow_pos w)
pow-lt (suc w) (suc o) h = omega (arith, pow-suc 2 w, pow-suc 2 o, pow-lt w o (omega (arith, h)))

bit-set : (w o k : ℕ) → bit (bit_or w (2 ^ o)) k ≡ (if k == o then 1 else bit w k)
bit-set w o k = ground (arith, bit-bit_or w (2 ^ o) k, bit-pow o k, bit-lt-two w k)

pow-below : (o : ℕ) → o < 32 → 2 ^ o < 2 ^ 32
pow-below o h = pow-lt 32 o h

bit-clear :
    (w o k : ℕ)
    → o < 32
    → k < 32
    → bit (bit_and w (full - 2 ^ o)) k ≡ (if k == o then 0 else bit w k)
bit-clear w o k h l = ground (
  arith,
  bit-bit_and w (full - 2 ^ o) k,
  bit-not 32 (2 ^ o) k (pow-below o h) l,
  bit-pow o k,
  bit-lt-two w k,
)

-- What a change of one word does to a frame, given what it does to a bit.
used-set :
    (value frame other w : ℕ) (map : List ℕ)
    → frame / 32 < length map
    → ((k : ℕ)
        → k < 32
        → bit w k ≡ (if k == frame % 32 then value else bit (get_or map (frame / 32) 0) k))
    → used (set map (frame / 32) w) other ≡ (if other == frame then value else used map other)
unfolding used
used-set value frame other w map h change = ground (
  arith,
  ap (λ v. bit v (other % 32)) (get_or-set map (frame / 32) (other / 32) w h),
  change (other % 32) (omega arith),
)

-- `bm_set` of a frame of the map takes it, and leaves every other frame as it is.
pub bm_set-used :
    (frame other : ℕ) (b : Bitmap)
    → b.bitsize ≡ 32
    → frame / 32 < length b.map
    → (map' : List ℕ) × (bm_set frame b ≡ ok tt (record b { map = map' }))
      × (used map' other ≡ (if other == frame then 1 else used b.map other))
unfolding bm_set used
bm_set-used frame other b bits h = (
  set b.map (frame / 32) (bit_or (get_or b.map (frame / 32) 0) (2 ^ (frame % 32))),
  ground (arith, get_elem?-get_or b.map (frame / 32) h),
  used-set 1 frame other _ b.map h (λ k l. bit-set (get_or b.map (frame / 32) 0) (frame % 32) k),
)

-- `bm_clear` of a frame of the map frees it, and leaves every other frame as it is.
pub bm_clear-used :
    (frame other : ℕ) (b : Bitmap)
    → b.bitsize ≡ 32
    → frame / 32 < length b.map
    → (map' : List ℕ) × (bm_clear frame b
        ≡ ok tt (record b {
          map = map';
          firstempty = if is_below (frame / 32) b.firstempty then frame / 32 else b.firstempty;
        }))
      × (used map' other ≡ (if other == frame then 0 else used b.map other))
unfolding bm_clear used
bm_clear-used frame other b bits h = (
  set b.map (frame / 32) (bit_and (get_or b.map (frame / 32) 0) (full - 2 ^ (frame % 32))),
  ground (arith, get_elem?-get_or b.map (frame / 32) h),
  used-set 0 frame other _ b.map h
      (λ k l. bit-clear (get_or b.map (frame / 32) 0) (frame % 32) k (omega arith) l),
)
