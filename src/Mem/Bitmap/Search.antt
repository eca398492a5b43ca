-- ===== src/Mem/Bitmap/Search.antt =====
-- `bm_findfirst` finds the first free frame.
use cyb_os.Prelude.{
  ℕ, zero, suc, ◌+◌, ◌-◌, ◌%◌, ◌^◌, ◌<◌, ◌≤◌, ◌≡◌, ◌∙◌, refl, sym, ap, subst, Bool, true, false,
  List, [], ◌∷◌, Option, none, some, ltb, ◌==◌, if◌then◌else◌, drop, arith, length, ◌⊎◌, inl, inr,
  get_or, Bool-cases,
}
use cyb_os.Prelude.Run.{ok}
use cyb_os.Word.Bits.{bit, bit-lt-two}
use cyb_os.Word.Single.{is_clear, all_ones}
use cyb_os.Mem.Bitmap.{Bitmap, full, find_bit, find_word}

find_bit-step :
    (rounds j w : ℕ)
    → find_bit (suc rounds) j w ≡ (if bit w j == 0 then some j else find_bit rounds (suc j) w)
unfolding find_bit
find_bit-step rounds j w = rw (is_clear w j) refl

-- Bit `k` is the first clear bit of a word from bit `j` on.
find_bit-some :
    (rounds j w k : ℕ)
    → find_bit rounds j w ≡ some k
    → (k < j + rounds) × (j ≤ k) × (bit w k ≡ 0) × ((l : ℕ) → j ≤ l → l < k → bit w l ≡ 1)
unfolding find_bit
find_bit-some zero j w k h = ground arith
find_bit-some (suc rounds) j w k h = elim (Bool-cases (bit w j == 0)) [
  | inl e ↦
      let here : j ≡ k = ground (arith, find_bit-step rounds j w) in
      (
        omega (arith, here),
        omega (arith, here),
        subst (λ k. bit w k ≡ 0) here (ground arith),
        λ l a b. absurd (omega (arith, here, a, b)),
      )
  | inr e ↦
      let (below, above, clear, ones) =
        find_bit-some rounds (suc j) w k (ground (arith, find_bit-step rounds j w)) in
      (
        omega (arith, below),
        omega (arith, above),
        clear,
        λ l a b. elim (Bool-cases (j == l)) [
          | inl here ↦
              subst (λ l. bit w l ≡ 1) {x = j} {y = l} (ground arith)
                (ground (arith, bit-lt-two w j))
          | inr there ↦ ones l (ground arith) b
        ],
      )
]

find_bit-none :
    (rounds j w : ℕ) → find_bit rounds j w ≡ none → (l : ℕ) → j ≤ l → l < j + rounds → bit w l ≡ 1
find_bit-none zero j w h l a b = absurd (omega (arith, a, b))
find_bit-none (suc rounds) j w h l a b = elim (Bool-cases (j == l)) [
  | inl here ↦
      subst (λ l. bit w l ≡ 1) {x = j} {y = l} (ground arith)
        (ground (arith, bit-lt-two w j, find_bit-step rounds j w))
  | inr there ↦
      find_bit-none rounds (suc j) w (ground (arith, find_bit-step rounds j w)) l (ground arith)
        (omega (arith, b))
]

abbrev pub AreWords : List ℕ → Type 0
AreWords [] = Unit {0}
AreWords (w ∷ map) = (w < 2 ^ 32) × AreWords map

-- Every word before index `i` is full.
unfoldable pub IsFullBelow : List ℕ → ℕ → Type 0
IsFullBelow map i = (k : ℕ) → k < i → get_or map k 0 ≡ full

-- Bit `j` of word `i` is the first clear one of the map.
unfoldable pub IsFirstFree : List ℕ → (i j : ℕ) → Type 0
IsFirstFree map i j =
    (i < length map)
    × (j < 32)
    × (bit (get_or map i 0) j ≡ 0)
    × ((k : ℕ) → k < j → bit (get_or map i 0) k ≡ 1)
    × IsFullBelow map i

find_word-one :
    (size i w : ℕ) (map : List ℕ) (b : Bitmap)
    → i < size
    → w < 2 ^ 32
    → (find_word size 32 (w ∷ map) i b ≡ find_word size 32 map (suc i) b) × (w ≡ full)
      ⊎ ((j : ℕ) × (find_word size 32 (w ∷ map) i b ≡ ok (some (i, j)) b)
          × (j < 32)
          × (bit w j ≡ 0)
          × ((k : ℕ) → k < j → bit w k ≡ 1))
unfolding find_word
find_word-one size i w map b h small = go (find_bit 32 0 w) refl (w == full) refl
  where
    go :
        (found : Option ℕ)
        → find_bit 32 0 w ≡ found
        → (test : Bool) → (w == full) ≡ test
        → (find_word size 32 (w ∷ map) i b ≡ find_word size 32 map (suc i) b) × (w ≡ full)
          ⊎ ((j : ℕ) × (find_word size 32 (w ∷ map) i b ≡ ok (some (i, j)) b)
              × (j < 32)
              × (bit w j ≡ 0)
              × ((k : ℕ) → k < j → bit w k ≡ 1))
    go found e true t = inl (ground arith, ground arith)
    go none e false t = inl (
      ground arith,
      all_ones 32 w small (λ l b. find_bit-none 32 0 w e l (omega arith) (omega (arith, b))),
    )
    go (some j) e false t =
        let (below, above, clear, ones) = find_bit-some 32 0 w j e in
        inr (j, ground arith, omega (arith, below), clear, λ k l. ones k (omega arith) l)

FirstFree-cons :
    (w : ℕ) (map : List ℕ) (i j : ℕ)
    → w ≡ full
    → IsFirstFree map i j
    → IsFirstFree (w ∷ map) (suc i) j
unfolding IsFirstFree IsFullBelow
FirstFree-cons w map i j e (inside, h, clear, ones, below) =
    (omega (arith, inside), h, clear, ones, λ k l. before k l)
  where
    before : (k : ℕ) → k < suc i → get_or (w ∷ map) k 0 ≡ full
    before zero l = e
    before (suc k) l = below k (omega (arith, l))

FullBelow-cons :
    (w : ℕ) (map : List ℕ)
    → w ≡ full
    → IsFullBelow map (length map)
    → IsFullBelow (w ∷ map) (suc (length map))
unfolding IsFullBelow
FullBelow-cons w map e h zero l = e
FullBelow-cons w map e h (suc k) l = h k (omega (arith, l))

pub find_word_lem :
    (size i : ℕ) (map : List ℕ) (b : Bitmap)
    → i + length map ≡ size
    → AreWords map
    → (find_word size 32 map i b ≡ ok none b) × IsFullBelow map (length map)
      ⊎ ((k : ℕ) × (j : ℕ) × (find_word size 32 map i b ≡ ok (some (i + k, j)) b)
          × IsFirstFree map k j)
unfolding find_word IsFullBelow IsFirstFree
find_word_lem size i [] b h words = inl (ground arith, λ k l. absurd (omega (arith, l)))
find_word_lem size i (w ∷ map) b h (small, words) =
    elim (find_word-one size i w map b (omega (arith, h)) small) [
      | inr (j, found, inside, clear, ones) ↦
          let e : i ≡ i + 0 = omega arith in
          inr (
            0,
            j,
            subst (λ n. find_word size 32 (w ∷ map) i b ≡ ok (some (n, j)) b) e found,
            (omega arith, inside, clear, ones, λ k l. absurd (omega (arith, l))),
          )
      | inl (next, all) ↦ elim (find_word_lem size (suc i) map b (omega (arith, h)) words) [
        | inl (none_found, full_map) ↦ inl (next ∙ none_found, FullBelow-cons w map all full_map)
        | inr (k, j, found, first) ↦
            let e : suc i + k ≡ i + suc k = omega arith in
            inr (
              suc k,
              j,
              next ∙ subst (λ n. find_word size 32 map (suc i) b ≡ ok (some (n, j)) b) e found,
              FirstFree-cons w map k j all first,
            )
      ]
    ]

get_or-drop : (n k : ℕ) (map : List ℕ) → get_or (drop n map) k 0 ≡ get_or map (n + k) 0
get_or-drop zero k map = ap (λ i. get_or map i 0) {x = k} {y = 0 + k} (omega arith)
get_or-drop (suc n) k [] = refl
get_or-drop (suc n) k (w ∷ map) =
    get_or-drop n k map
    ∙ ap (λ i. get_or (w ∷ map) i 0) {x = suc (n + k)} {y = suc n + k} (omega arith)

pub AreWords-drop : (n : ℕ) (map : List ℕ) → AreWords map → AreWords (drop n map)
AreWords-drop zero map h = h
AreWords-drop (suc n) [] h = tt
AreWords-drop (suc n) (w ∷ map) h = AreWords-drop n map h.1

pub length-drop : (n : ℕ) (map : List ℕ) → n ≤ length map → n + length (drop n map) ≡ length map
length-drop zero map h = omega arith
length-drop (suc n) [] h = absurd (omega (arith, h))
length-drop (suc n) (w ∷ map) h = omega (arith, length-drop n map (omega (arith, h)))

-- The index that the search starts at.
abbrev pub first_word : Bitmap → ℕ
first_word b = if ltb b.firstempty (2 ^ 31) then b.firstempty else 0

-- A bitmap of 32-bit words whose cache is right: every word before the first to search is full.
unfoldable pub IsBitmap : Bitmap → Type 0
IsBitmap b =
    (b.bitsize ≡ 32)
    × (b.size ≡ length b.map)
    × (length b.map < 2 ^ 31)
    × AreWords b.map
    × (first_word b ≤ length b.map)
    × IsFullBelow b.map (first_word b)

-- The index that the search leaves for the next one.
back_one :
    (i : ℕ) (b : Bitmap)
    → i < 2 ^ 31
    → first_word (record b { firstempty = (i + (2 ^ 32 - 1)) % 2 ^ 32 }) ≤ i
back_one i b h = ground arith

pub FullBelow-mono : (map : List ℕ) (i n : ℕ) → n ≤ i → IsFullBelow map i → IsFullBelow map n
unfolding IsFullBelow
FullBelow-mono map i n h below k l = below k (omega (arith, h, l))

pub recached :
    (b : Bitmap) (i j : ℕ)
    → IsBitmap b
    → IsFirstFree b.map i j
    → IsBitmap (record b { firstempty = (i + (2 ^ 32 - 1)) % 2 ^ 32 })
unfolding IsBitmap IsFirstFree
recached b i j (bits, size, short, words, start, below) (inside, h, clear, ones, before) = (
  bits,
  size,
  short,
  words,
  omega (arith, back_one i b (omega (arith, inside, short)), inside),
  FullBelow-mono b.map i _ (back_one i b (omega (arith, inside, short))) before,
)

pub FirstFree-drop :
    (map : List ℕ) (n k j : ℕ)
    → n ≤ length map
    → IsFullBelow map n
    → IsFirstFree (drop n map) k j
    → IsFirstFree map (n + k) j
unfolding IsFirstFree IsFullBelow
FirstFree-drop map n k j h low (inside, small, clear, ones, below) = (
  omega (arith, inside, length-drop n map h),
  small,
  rw (← get_or-drop n k map) clear,
  rw (← get_or-drop n k map) ones,
  before,
)
  where
    before : (l : ℕ) → l < n + k → get_or map l 0 ≡ full
    before l m = elim (Bool-cases (ltb l n)) [
      | inl e ↦ low l (ground arith)
      | inr e ↦
          let split : n + (l - n) ≡ l = ground arith in
          subst (λ x. get_or map x 0 ≡ full) split
            (sym (get_or-drop n (l - n) map) ∙ below (l - n) (ground arith))
    ]

pub FullBelow-drop :
    (map : List ℕ) (n : ℕ)
    → n ≤ length map
    → IsFullBelow map n
    → IsFullBelow (drop n map) (length (drop n map))
    → IsFullBelow map (length map)
unfolding IsFullBelow
FullBelow-drop map n h low high l m = elim (Bool-cases (ltb l n)) [
  | inl e ↦ low l (ground arith)
  | inr e ↦
      let split : n + (l - n) ≡ l = ground arith in
      subst (λ x. get_or map x 0 ≡ full) split
        (sym (get_or-drop n (l - n) map) ∙ high (l - n) (ground (arith, length-drop n map h)))
]
