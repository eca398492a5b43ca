-- ===== src/Boot/Parameter.antt =====
-- The value of a parameter of the kernel.
use cyb_os.Prelude.{
  ℕ, ◌≤◌, ◌<◌, ◌≡◌, ◌≢◌, refl, ap, arith, some, List, [], ◌∷◌, ◌++◌, length, drop, ◌⊎◌, inl, inr,
  Bool, true, false, ◌==◌, ◌&&◌, ◌∙◌, Bool-cases,
}
use cyb_os.Prelude.Run.{ok, fault}
use cyb_os.Klib.Text.{char_diff, strlen, strncpy, strncmp, strstr_from, strstr}
use cyb_os.Vfs.Lookup.{span_until}
use cyb_os.Boot.{value_at, get_boot_parameter}

-- No character of a text is `c`.
abbrev pub Without : (c : ℕ) → List ℕ → Type 0
Without c [] = Unit
Without c (x ∷ text) = (x ≢ c) × Without c text

-- A text that is empty or begins with `c`.
abbrev pub Ends : (c : ℕ) → List ℕ → Type 0
Ends c [] = Unit
Ends c (x ∷ rest) = x ≡ c

abbrev pub IsQuote : ℕ → Type 0
IsQuote c = (c ≡ b'\'') ⊎ (c ≡ b'"')

abbrev pub Unquoted : List ℕ → Type 0
Unquoted [] = Unit
Unquoted (x ∷ text) = (x ≢ b'\'') × (x ≢ b'"')

-- A text begins with another one.
unfoldable pub begins_with : (text arg : List ℕ) → Bool
begins_with text [] = true
begins_with [] (x ∷ arg) = false
begins_with (y ∷ text) (x ∷ arg) = y == x && begins_with text arg

-- `arg` begins nowhere in `front ++ behind` before `behind`.
unfoldable pub IsFirst : (arg front behind : List ℕ) → Type 0
unfolding begins_with
IsFirst arg [] behind = Unit
IsFirst arg (x ∷ front) behind =
    (begins_with ((x ∷ front) ++ behind) arg ≡ false) × IsFirst arg front behind

begins_with-whole : (arg text : List ℕ) → begins_with (arg ++ text) arg ≡ true
unfolding begins_with
begins_with-whole [] text = refl
begins_with-whole (x ∷ arg) text = ground (arith, begins_with-whole arg text)

-- The characters of a C string.
abbrev pub IsText : List ℕ → Type 0
IsText [] = Unit
IsText (x ∷ text) = (0 < x) × (x < 256) × IsText text

char_diff-ne : (a b : ℕ) → a < 256 → b < 256 → (a == b) ≡ false → (char_diff a b == 0) ≡ false
char_diff-ne a b la lb ne = ground arith

strncmp-begins_with :
    (text arg : List ℕ)
    → IsText text
    → IsText arg
    → (strncmp text arg (strlen arg) == 0) ≡ begins_with text arg
unfolding strncmp strlen begins_with
strncmp-begins_with text [] t a = refl
strncmp-begins_with [] (x ∷ arg) t a = char_diff-ne 0 x (omega arith) a.1 (ground (arith, a.0))
strncmp-begins_with (y ∷ text) (x ∷ arg) t a = elim (Bool-cases (y == x)) [
  | inl e ↦ rw e (strncmp-begins_with text arg t.2 a.2)
  | inr e ↦ rw e (char_diff-ne y x t.1 a.1 e)
]

IsText-append : (xs ys : List ℕ) → IsText (xs ++ ys) → IsText ys
IsText-append [] ys t = t
IsText-append (x ∷ xs) ys t = IsText-append xs ys t.2

IsText-front : (xs ys : List ℕ) → IsText (xs ++ ys) → IsText xs
IsText-front [] ys t = tt
IsText-front (x ∷ xs) ys t = (t.0, t.1, IsText-front xs ys t.2)

found_here :
    (sc c : ℕ) (str1 arg : List ℕ)
    → IsText str1
    → IsText arg
    → (sc == c && strncmp str1 arg (strlen arg) == 0) ≡ begins_with (sc ∷ str1) (c ∷ arg)
unfolding begins_with
found_here sc c str1 arg t a = ap (λ (b : Bool). sc == c && b) (strncmp-begins_with str1 arg t a)

strstr_from-first :
    (c : ℕ) (arg front text : List ℕ)
    → IsText (front ++ ((c ∷ arg) ++ text))
    → IsFirst (c ∷ arg) front ((c ∷ arg) ++ text)
    → strstr_from c arg (front ++ ((c ∷ arg) ++ text)) ≡ some ((c ∷ arg) ++ text)
unfolding strstr_from IsFirst
strstr_from-first c arg [] text t first =
    rw
      (found_here c c (arg ++ text) arg t.2 (IsText-front arg text t.2)
        ∙ begins_with-whole (c ∷ arg) text)
      refl
strstr_from-first c arg (x ∷ front) text t first =
    let is_arg = IsText-front (c ∷ arg) text (IsText-append (x ∷ front) ((c ∷ arg) ++ text) t) in
    rw (found_here x c (front ++ ((c ∷ arg) ++ text)) arg t.2 is_arg.2 ∙ first.0)
      (strstr_from-first c arg front text t.2 first.1)

-- `strstr` finds the first place of a text that is not empty.
strstr-first :
    (arg front text : List ℕ)
    → 0 < length arg
    → IsText (front ++ (arg ++ text))
    → IsFirst arg front (arg ++ text)
    → strstr (front ++ (arg ++ text)) arg ≡ some (arg ++ text)
unfolding strstr
strstr-first [] front text some_arg t first = absurd (omega arith)
strstr-first (c ∷ arg) front text some_arg t first = strstr_from-first c arg front text t first

-- A value in quotes, up to the quote that it begins with, or one without, up to a blank.
abbrev pub Opens : (tc : ℕ) → (text start : List ℕ) → Type 0
Opens tc text start =
    (IsQuote tc × (text ≡ tc ∷ start)) ⊎ ((tc ≡ b' ') × (text ≡ start) × Unquoted start)

value_at_lem : (tc : ℕ) (text start : List ℕ) → Opens tc text start → value_at text ≡ (tc, start)
unfolding value_at
value_at_lem tc text start (inl (q, e)) = rw e (ground arith)
value_at_lem tc text [] (inr (b, e, u)) = ground arith
value_at_lem tc text (x ∷ start) (inr (b, e, u)) = rw e (ground arith)

drop-strlen : (arg text : List ℕ) → drop (strlen arg) (arg ++ text) ≡ text
unfolding strlen
drop-strlen [] text = refl
drop-strlen (x ∷ arg) text = drop-strlen arg text

span_until-value :
    (tc : ℕ) (value rest : List ℕ)
    → Without tc value
    → Ends tc rest
    → span_until tc (value ++ rest) ≡ length value
unfolding span_until
span_until-value tc [] [] w e = refl
span_until-value tc [] (x ∷ rest) w e = ground arith
span_until-value tc (x ∷ value) rest w e = ground (arith, span_until-value tc value rest w.1 e)

strncpy-value : (value rest : List ℕ) → strncpy (value ++ rest) (length value) ≡ value
unfolding strncpy
strncpy-value [] [] = refl
strncpy-value [] (x ∷ rest) = refl
strncpy-value (x ∷ value) rest = ap (λ (t : List ℕ). x ∷ t) (strncpy-value value rest)

-- Parameters without a NUL, in which `arg`, that is not empty, has its first place behind `front`, and is followed by a
-- value in quotes of either kind, or by one that does not begin with a quote; the value ends at that quote, or at a blank,
-- or with the parameters: `get_boot_parameter` puts that value into a buffer that has room for it and for the NUL, and
-- nothing of what follows.
pub get_boot_parameter-value :
    {S : Type 0} (s : S) (room tc : ℕ) (front arg text value rest : List ℕ)
    → 0 < length arg
    → IsText (front ++ (arg ++ text))
    → IsFirst arg front (arg ++ text)
    → Opens tc text (value ++ rest)
    → Without tc value
    → Ends tc rest
    → length value < room
    → get_boot_parameter room (front ++ (arg ++ text)) arg s ≡ ok (some value) s
unfolding get_boot_parameter
get_boot_parameter-value s room tc front arg text value rest given is_text first opens without ends
      fits =
    ground (
      arith,
      strstr-first arg front text given is_text first,
      drop-strlen arg text,
      value_at_lem tc text (value ++ rest) opens,
      span_until-value tc value rest without ends,
      strncpy-value value rest,
    )

-- A value that leaves no room for the NUL is written past the end of the buffer.
pub get_boot_parameter_fault :
    {S : Type 0} (s : S) (room tc : ℕ) (parameters arg text value rest : List ℕ)
    → strstr parameters arg ≡ some (arg ++ text)
    → Opens tc text (value ++ rest)
    → Without tc value
    → Ends tc rest
    → room ≤ length value
    → get_boot_parameter room parameters arg s ≡ fault
unfolding get_boot_parameter
get_boot_parameter_fault s room tc parameters arg text value rest found opens without ends over =
    ground (
      arith,
      found,
      drop-strlen arg text,
      value_at_lem tc text (value ++ rest) opens,
      span_until-value tc value rest without ends,
    )
