-- ===== src/Klib/Text/Order.antt =====
-- `strcmp` tells strings apart.
use cyb_os.Prelude.{
  ℕ, zero, suc, ◌<◌, ◌≡◌, refl, ap, List, [], ◌∷◌, arith, ◌==◌, Bool-cases, inl, inr, take,
}
use cyb_os.Klib.Text.{char_diff, strncpy, strcmp}

-- The bytes of a C string: none is NUL.
abbrev pub IsCString : List ℕ → Type 0
IsCString [] = Unit {0}
IsCString (c ∷ str) = (0 < c) × (c < 256) × IsCString str

char_diff-zero : (a b : ℕ) → a < 256 → b < 256 → char_diff a b ≡ 0 → a ≡ b
char_diff-zero a b h k e = ground arith

-- `strcmp` is 0 exactly on equal strings.
pub strcmp_zero :
    (str1 str2 : List ℕ)
    → IsCString str1
    → IsCString str2
    → ((strcmp str1 str2 ≡ 0) → str1 ≡ str2) × ((str1 ≡ str2) → strcmp str1 str2 ≡ 0)
unfolding strcmp
strcmp_zero [] [] h k = (λ _. refl, λ _. refl)
strcmp_zero (a ∷ str1) [] h k =
    (λ e. absurd (omega (arith, h.0, char_diff-zero a 0 h.1 (omega arith) e)), λ e. cc)
strcmp_zero [] (b ∷ str2) h k =
    (λ e. absurd (omega (arith, k.0, char_diff-zero 0 b (omega arith) k.1 e)), λ e. cc)
strcmp_zero (a ∷ str1) (b ∷ str2) h k =
    let ih = strcmp_zero str1 str2 h.2 k.2 in
    elim (Bool-cases (a == b)) [
      | inl same ↦ rw same (λ e. ground (arith, ih.0 e), λ e. ih.1 (ground arith))
      | inr other ↦ rw other (λ e. ground (arith, char_diff-zero a b h.1 k.1 e), λ e. ground arith)
    ]

pub strcmp_refl : (str : List ℕ) → strcmp str str ≡ 0
unfolding strcmp
strcmp_refl [] = refl
strcmp_refl (c ∷ str) = ground (arith, strcmp_refl str)

-- `strncpy` copies the first `count` bytes, or the whole string if it is shorter.
pub strncpy-take : (src : List ℕ) (count : ℕ) → strncpy src count ≡ take count src
unfolding strncpy
strncpy-take [] zero = refl
strncpy-take [] (suc count) = refl
strncpy-take (c ∷ src) zero = refl
strncpy-take (c ∷ src) (suc count) = ap (λ l. c ∷ l) (strncpy-take src count)
