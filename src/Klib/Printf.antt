-- ===== src/Klib/Printf.antt =====
-- `do_printf` of klib.c and its callers. The calls of `fn` are the characters of the output, in order, and the result is how
-- many there are.
pub mod Digits
pub mod Unsigned
use cyb_os.Prelude.{
  ℕ, zero, suc, ◌+◌, ◌-◌, ◌*◌, ◌/◌, ◌%◌, ◌^◌, Bool, true, false, ◌&&◌, not, List, [], ◌∷◌, ◌++◌,
  Option, none, some, replicate, length, drop, ltb, leb, ◌==◌, if◌then◌else◌,
}
use cyb_os.Klib.Text.{strlen}

-- What `va_arg` gives: a word of 32 bits, or a string.
pub data Arg : Type 0 where
  word : ℕ → Arg
  text : List ℕ → Arg

-- The states 0 to 3.
pub data Phase : Type 0 where
  awaiting_percent : Phase
  awaiting_flags : Phase
  awaiting_width : Phase
  awaiting_modifier : Phase

-- The state and the flags. `mid_step` says that the character has been read by an increment inside the loop: when it is the
-- NUL, the loop runs on behind the string.
pub record Spec : Type 0 where
  pub phase : Phase
  pub mid_step : Bool
  pub left_justify : Bool
  pub long_word : Bool
  pub short_word : Bool
  pub left_zeroes : Bool
  pub given_wd : ℕ

abbrev pub start : Spec
start = record {
  phase = awaiting_percent;
  mid_step = false;
  left_justify = false;
  long_word = false;
  short_word = false;
  left_zeroes = false;
  given_wd = 0;
}

-- What a character does: it is echoed, the scan goes on, or it is a conversion.
pub data Step : Type 0 where
  echo : Step
  go_on : Spec → Step
  convert : Spec → Step

unfoldable pub scan_modifier : Spec → ℕ → Step
scan_modifier spec c =
    let stay = record spec { phase = awaiting_modifier; mid_step = false } in
    if c == b'F'
    then go_on stay
    else if c == b'N'
    then go_on stay
    else if c == b'l'
    then go_on (record stay { long_word = true })
    else if c == b'h'
    then go_on (record stay { short_word = true })
    else convert stay

unfoldable pub scan_width : Spec → ℕ → Step
unfolding scan_modifier
scan_width spec c =
    if leb b'0' c && leb c b'9'
    then go_on (record spec {
      phase = awaiting_width;
      mid_step = false;
      given_wd = (10 * spec.given_wd + (c - b'0')) % 2 ^ 32;
    })
    else scan_modifier spec c

-- `%--` is no conversion.
unfoldable pub scan_flags : Spec → ℕ → Step
unfolding scan_width
scan_flags spec c =
    if c == b'%'
    then echo
    else if c == b'-'
    then go_on (
        if spec.left_justify
        then start
        else record spec { phase = awaiting_flags; mid_step = false; left_justify = true })
    else if c == b'0'
    then go_on (record spec { phase = awaiting_width; mid_step = true; left_zeroes = true })
    else scan_width spec c

unfoldable pub scan_phase : Phase → Spec → ℕ → Step
unfolding scan_flags
scan_phase awaiting_percent spec c =
    if c == b'%' then go_on (record spec { phase = awaiting_flags; mid_step = true }) else echo
scan_phase awaiting_flags spec c = scan_flags spec c
scan_phase awaiting_width spec c = scan_width spec c
scan_phase awaiting_modifier spec c = scan_modifier spec c

-- The radix of a conversion of numbers.
unfoldable pub radix_of : ℕ → Option ℕ
radix_of c =
    if c == b'X'
    then some 16
    else if c == b'x'
    then some 16
    else if c == b'p'
    then some 16
    else if c == b'n'
    then some 16
    else if c == b'd'
    then some 10
    else if c == b'i'
    then some 10
    else if c == b'u'
    then some 10
    else if c == b'o'
    then some 8
    else none

unfoldable pub is_signed : ℕ → Bool
is_signed c = if c == b'd' then true else c == b'i'

-- A digit; `upper` is `PR_CA`.
unfoldable pub digit : (upper : Bool) → ℕ → ℕ
digit upper temp =
    if ltb temp 10 then temp + b'0' else if upper then temp - 10 + b'A' else temp - 10 + b'a'

-- The loop that writes the digits from the end of `buf` on. `none` is a write before `buf`.
unfoldable pub write_digits :
    (where_to : ℕ) → (upper : Bool) → (radix num : ℕ) → List ℕ → Option (List ℕ)
unfolding digit
write_digits zero upper radix num written = none
write_digits (suc where_to) upper radix num written =
    let more = digit upper (num % radix) ∷ written in
    let rest = write_digits where_to upper radix (num / radix) more in
    if num / radix == 0 then some more else rest

-- `PR_BUFLEN - 1` places before the NUL.
abbrev pub digit_places : ℕ
digit_places = 15

-- The number of the argument, as a `long` of 32 bits.
unfoldable pub load_number : (signed : Bool) → Spec → ℕ → ℕ
load_number signed spec w =
    if spec.long_word
    then w
    else if spec.short_word
    then if signed && leb (2 ^ 15) (w % 2 ^ 16) then w % 2 ^ 16 + (2 ^ 32 - 2 ^ 16) else w % 2 ^ 16
    else w

-- From `EMIT` on: the sign, the padding and the body.
unfoldable pub emit : Spec → (minus : Bool) → (actual_wd : ℕ) → List ℕ → List ℕ
emit spec minus actual_wd body =
    let sign_first = if minus && spec.left_zeroes then b'-' ∷ [] else [] in
    let pad = if spec.left_zeroes then b'0' else b' ' in
    let left = if spec.left_justify then [] else replicate (spec.given_wd - actual_wd) pad in
    let sign_last = if minus && not spec.left_zeroes then b'-' ∷ [] else [] in
    let given_wd =
      if spec.left_justify
      then spec.given_wd
      else if ltb actual_wd spec.given_wd
      then actual_wd
      else spec.given_wd in
    let right = replicate (given_wd - actual_wd) b' ' in
    sign_first ++ (left ++ (sign_last ++ (body ++ right)))

unfoldable pub emit_body : Spec → (minus : Bool) → Option (List ℕ) → Option (List ℕ)
unfolding emit
emit_body spec minus none = none
emit_body spec minus (some body) =
    some (emit spec minus (strlen body + (if minus then 1 else 0)) body)

unfoldable pub emit_digits : Spec → (upper minus : Bool) → (radix size : ℕ) → Option (List ℕ)
unfolding write_digits emit_body
emit_digits spec upper minus radix size =
    emit_body spec minus (write_digits digit_places upper radix size [])

unfoldable pub emit_number : Spec → ℕ → (radix w : ℕ) → Option (List ℕ)
unfolding is_signed load_number emit_digits
emit_number spec c radix w =
    let num = load_number (is_signed c) spec w in
    let minus = is_signed c && leb (2 ^ 31) num in
    emit_digits spec (c == b'X') minus radix (if minus then 2 ^ 32 - num else num)

abbrev pub with_args : List Arg → Option (List ℕ) → Option (List ℕ × List Arg)
with_args args none = none
with_args args (some out) = some (out, args)

-- A conversion: the output and the arguments that are left. `none` is a read of an argument that is not there, or
-- is of another kind.
unfoldable pub conversion : Spec → ℕ → List Arg → Option (List ℕ × List Arg)
unfolding radix_of emit_number emit
conversion spec c args =
    let plain = record spec { left_zeroes = false } in
    elim (radix_of c) [
      | some radix ↦ elim args [
        | [] ↦ none
        | text str ∷ args ↦ none
        | word w ∷ args ↦ with_args args (emit_number spec c radix w)
      ]
      | none ↦
          if c == b'c'
          then elim args [
            | [] ↦ none
            | text str ∷ args ↦ none
            | word w ∷ args ↦
                let body = if w % 256 == 0 then [] else (w % 256) ∷ [] in
                some (emit plain false 1 body, args)
          ]
          else if c == b's'
          then elim args [
            | [] ↦ none
            | word w ∷ args ↦ none
            | text str ∷ args ↦ some (emit plain false (strlen str) str, args)
          ]
          else some ([], args)
    ]

abbrev pub then_output : List ℕ → Option (List ℕ) → Option (List ℕ)
then_output out none = none
then_output out (some rest) = some (out ++ rest)

-- The loop over the format.
unfoldable pub printf_from : Spec → List ℕ → List Arg → Option (List ℕ)
unfolding scan_phase conversion
printf_from spec [] args = if spec.mid_step then none else some []
printf_from spec (c ∷ fmt) args = elim (scan_phase spec.phase spec c) [
  | echo ↦ then_output (c ∷ []) (printf_from start fmt args)
  | go_on spec ↦ printf_from spec fmt args
  | convert spec ↦ elim (conversion spec c args) [
    | none ↦ none
    | some converted ↦ then_output converted.0 (printf_from start fmt converted.1)
  ]
]

unfoldable pub do_printf : List ℕ → List Arg → Option (List ℕ)
unfolding printf_from
do_printf fmt args = printf_from start fmt args

-- The result, and what `buffer` holds then: no NUL is written behind the output. `none` also is a write past the
-- buffer.
unfoldable pub vsprintf : List ℕ → List ℕ → List Arg → Option (ℕ × List ℕ)
unfolding do_printf
vsprintf buffer fmt args = elim (do_printf fmt args) [
  | none ↦ none
  | some out ↦
      if ltb (length buffer) (length out)
      then none
      else some (length out, out ++ drop (length out) buffer)
]
