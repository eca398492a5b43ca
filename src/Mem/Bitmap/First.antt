-- ===== src/Mem/Bitmap/First.antt =====
-- `bm_findfirst` as a whole.
use cyb_os.Prelude.{ℕ, ◌+◌, ◌-◌, ◌*◌, ◌%◌, ◌^◌, ◌≡◌, none, some, drop, arith, length, ◌⊎◌, inl, inr}
use cyb_os.Prelude.Run.{ok}
use cyb_os.Mem.Bitmap.{Bitmap, bm_findfirst}
use cyb_os.Mem.Bitmap.Search.{
  IsFullBelow, IsFirstFree, IsBitmap, first_word, recached, FirstFree-drop, FullBelow-drop,
  AreWords-drop, length-drop, find_word_lem,
}

-- On a bitmap of 32-bit words whose cache is right, `bm_findfirst` returns -1, with every word full, or the
-- number of the first clear bit of the whole map; then it changes the cache alone, which stays right.
pub bm_findfirst_lem :
    (b : Bitmap)
    → IsBitmap b
    → (bm_findfirst b ≡ ok none b) × IsFullBelow b.map (length b.map)
      ⊎ ((i : ℕ) × (j : ℕ) × (let b' = record b { firstempty = (i + (2 ^ 32 - 1)) % 2 ^ 32 } in
            (bm_findfirst b ≡ ok (some (i * 32 + j)) b') × IsFirstFree b.map i j × IsBitmap b'))
unfolding bm_findfirst IsBitmap
bm_findfirst_lem b (bits, size, short, words, start, below) =
    elim (find_word_lem b.size (first_word b) (drop (first_word b) b.map) b
      (omega (arith, length-drop (first_word b) b.map start, size))
      (AreWords-drop (first_word b) b.map words)) [
        | inl (missed, high) ↦
            inl (ground arith, FullBelow-drop b.map (first_word b) start below high)
        | inr (k, j, found, first) ↦
            let whole : IsFirstFree b.map (first_word b + k) j =
              FirstFree-drop b.map (first_word b) k j start below first in
            inr (
              first_word b + k,
              j,
              (
                ground arith,
                whole,
                recached b (first_word b + k) j (bits, size, short, words, start, below) whole,
              ),
            )
      ]
