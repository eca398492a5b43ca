-- ===== src/Klib/Text.antt =====
-- The string functions of klib.c. A C string is the list of its bytes before the NUL.
pub mod Order
use cyb_os.Prelude.{
  ℕ, zero, suc, ◌+◌, ◌-◌, ◌%◌, ◌^◌, Option, none, some, List, [], ◌∷◌, ◌==◌, ltb, if◌then◌else◌,
  ◌&&◌,
}

-- A `char` is signed: its bits as an `int` of 32 digits, and the difference of two.
abbrev pub sign_extend : ℕ → ℕ
sign_extend c = if ltb c 128 then c else c + 2 ^ 32 - 256

abbrev pub char_diff : ℕ → ℕ → ℕ
char_diff a b = (sign_extend a + 2 ^ 32 - sign_extend b) % 2 ^ 32

unfoldable pub strlen : List ℕ → ℕ
strlen [] = 0
strlen (c ∷ str) = suc (strlen str)

-- What `dst` holds afterwards; the NUL behind it makes one byte more.
unfoldable pub strncpy : List ℕ → ℕ → List ℕ
strncpy [] count = []
strncpy (c ∷ src) zero = []
strncpy (c ∷ src) (suc count) = c ∷ strncpy src count

unfoldable pub strcmp : List ℕ → List ℕ → ℕ
strcmp [] [] = char_diff 0 0
strcmp (a ∷ str1) [] = char_diff a 0
strcmp [] (b ∷ str2) = char_diff 0 b
strcmp (a ∷ str1) (b ∷ str2) = if a == b then strcmp str1 str2 else char_diff a b

unfoldable pub strncmp : List ℕ → List ℕ → ℕ → ℕ
strncmp str1 str2 zero = 0
strncmp [] [] (suc count) = 0
strncmp (a ∷ str1) [] (suc count) = char_diff a 0
strncmp [] (b ∷ str2) (suc count) = char_diff 0 b
strncmp (a ∷ str1) (b ∷ str2) (suc count) =
    if a == b then strncmp str1 str2 count else char_diff a b

-- The two loops of `strstr`, for a needle that begins with `c`.
unfoldable pub strstr_from : ℕ → List ℕ → List ℕ → Option (List ℕ)
strstr_from c needle [] = none
strstr_from c needle (sc ∷ str1) =
    if sc == c && strncmp str1 needle (strlen needle) == 0
    then some (sc ∷ str1)
    else strstr_from c needle str1

unfoldable pub strstr : List ℕ → List ℕ → Option (List ℕ)
unfolding strstr_from
strstr str1 [] = some str1
strstr str1 (c ∷ str2) = strstr_from c str2 str1
