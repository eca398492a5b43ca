-- ===== src/Mem/Bitmap.antt =====
-- The bitmap of physical frames of paging.c: `bm_set`, `bm_clear`, `bm_test` and `bm_findfirst`. The frame
-- numbers are not negative, and below 2 ^ 31.
pub mod Search
pub mod First
pub mod Mark
use Prim.Native.Nat.{bit_and, bit_or}
use cyb_os.Prelude.{
  ℕ, zero, suc, ◌+◌, ◌-◌, ◌*◌, ◌/◌, ◌%◌, ◌^◌, Bool, false, List, [], ◌∷◌, Option, none, some, ltb,
  ◌==◌, if◌then◌else◌, get_elem?, set, drop,
}
use cyb_os.Prelude.Run.{fault, Cmd, pure, ◌>>=◌, ◌>>◌, gets, modify}

-- `bitmap_t`. `map` is the array that it points to; `firstempty` is an `int`, as its bit pattern.
pub record Bitmap : Type 0 where
  pub size : ℕ
  pub bitsize : ℕ
  pub map : List ℕ
  pub firstempty : ℕ

-- A word with every bit set, the -1 of `bm_findfirst`.
abbrev pub full : ℕ
full = 2 ^ 32 - 1

-- `bitmap->map[index]`, out of the array a fault.
abbrev pub word : ℕ → Cmd Bitmap ℕ
word index b = elim (get_elem? {A = ℕ} b.map index) [ none ↦ fault | some w ↦ pure w b ]

unfoldable pub bm_set : ℕ → Cmd Bitmap (Unit {0})
bm_set frame_address = do
  bitsize ← gets (λ b. b.bitsize)
  let index = frame_address / bitsize
  let offset = frame_address % bitsize
  w ← word index
  modify (λ b. record b { map = set b.map index (bit_or w (2 ^ offset)) })

-- `index < bitmap->firstempty`, of two `int`.
abbrev pub is_below : ℕ → ℕ → Bool
is_below index firstempty = if ltb firstempty (2 ^ 31) then ltb index firstempty else false

unfoldable pub bm_clear : ℕ → Cmd Bitmap (Unit {0})
bm_clear frame_address = do
  bitsize ← gets (λ b. b.bitsize)
  let index = frame_address / bitsize
  let offset = frame_address % bitsize
  w ← word index
  modify (λ b. record b { map = set b.map index (bit_and w (full - 2 ^ offset)) })
  modify (λ b. if is_below index b.firstempty then record b { firstempty = index } else b)

unfoldable pub bm_test : ℕ → Cmd Bitmap ℕ
bm_test frame_address = do
  bitsize ← gets (λ b. b.bitsize)
  w ← word (frame_address / bitsize)
  pure (bit_and w (2 ^ (frame_address % bitsize)))

-- The inner loop, with `rounds` to go at bit `j`.
unfoldable pub find_bit : (rounds j w : ℕ) → Option ℕ
find_bit zero j w = none
find_bit (suc rounds) j w =
    let rest = find_bit rounds (suc j) w in if bit_and w (2 ^ j) == 0 then some j else rest

-- The outer loop at index `i`, which the words of the list start at: the index and the bit where it
-- returns, `none` where it falls through. It ends at `size` alone, and past the array it faults.
unfoldable pub find_word : (size bitsize : ℕ) → List ℕ → (i : ℕ) → Cmd Bitmap (Option (ℕ × ℕ))
find_word size bitsize [] i = if i == size then pure none else (λ _. fault)
find_word size bitsize (w ∷ map) i =
    let rest = find_word size bitsize map (suc i) in
    if i == size
    then pure none
    else if w == full
    then rest
    else elim (find_bit bitsize 0 w) [ none ↦ rest | some j ↦ pure (some (i, j)) ]

-- `none` is -1.
unfoldable pub bm_findfirst : Cmd Bitmap (Option ℕ)
bm_findfirst = do
  b ← gets (λ b. b)
  let sf = if ltb b.firstempty (2 ^ 31) then b.firstempty else 0
  found ← find_word b.size b.bitsize (drop sf b.map) sf
  elim found [
    | none ↦ pure none
    | some (i, j) ↦
        modify (λ b. record b { firstempty = (i + (2 ^ 32 - 1)) % 2 ^ 32 })
        >> pure (some (i * b.bitsize + j))
  ]
