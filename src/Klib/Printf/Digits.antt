-- ===== src/Klib/Printf/Digits.antt =====
-- The digits that `do_printf` writes for a number.
use mathlib.Core.List.{append_assoc, append-nil}
use native.Mathlib.Nat.{pow-suc, pow-zero, mod-lt, div-add-mod', div-lt_iff_lt-mul, pow-le-pow_left}
use cyb_os.Prelude.{
  ℕ, zero, suc, ◌+◌, ◌-◌, ◌*◌, ◌/◌, ◌%◌, ◌^◌, ◌≤◌, ◌<◌, ◌≡◌, ◌∙◌, refl, sym, ap, arith, Bool, true,
  false, List, [], ◌∷◌, ◌++◌, Option, some, leb, ◌==◌, if◌then◌else◌, Bool-cases, ◌⊎◌, ==_iff, inl,
  inr,
}
use cyb_os.Klib.Printf.{digit, write_digits, digit_places}

-- The value of a digit, and of a numeral.
unfoldable pub digit_value : ℕ → ℕ
digit_value c = if leb c b'9' then c - b'0' else if leb c b'F' then c - 55 else c - 87

unfoldable pub number_of : (radix : ℕ) → (before : ℕ) → List ℕ → ℕ
unfolding digit_value
number_of radix before [] = before
number_of radix before (c ∷ digits) = number_of radix (before * radix + digit_value c) digits

-- A decimal digit or a letter from A to F, in upper or in lower case, of a value below the radix.
abbrev pub IsDigit : (upper : Bool) → (radix c : ℕ) → Type 0
IsDigit upper radix c =
    (((b'0' ≤ c) × (c ≤ b'9'))
      ⊎ (((if upper then b'A' else b'a') ≤ c) × (c ≤ (if upper then b'F' else b'f'))))
    × (digit_value c < radix)

abbrev pub AreDigits : (upper : Bool) → (radix : ℕ) → List ℕ → Type 0
AreDigits upper radix [] = Unit
AreDigits upper radix (c ∷ digits) = IsDigit upper radix c × AreDigits upper radix digits

digit_value-digit : (upper : Bool) (d : ℕ) → d < 16 → digit_value (digit upper d) ≡ d
unfolding digit_value digit
digit_value-digit true d l = ground arith
digit_value-digit false d l = ground arith

digit-IsDigit :
    (upper : Bool) (radix d : ℕ) → radix ≤ 16 → d < radix → IsDigit upper radix (digit upper d)
unfolding digit digit_value
digit-IsDigit true radix d hi l = ground arith
digit-IsDigit false radix d hi l = ground arith

AreDigits-snoc :
    (upper : Bool) (radix c : ℕ) (digits : List ℕ)
    → AreDigits upper radix digits
    → IsDigit upper radix c
    → AreDigits upper radix (digits ++ (c ∷ []))
AreDigits-snoc upper radix c [] all last = (last, tt)
AreDigits-snoc upper radix c (x ∷ digits) (first, all) last =
    (first, AreDigits-snoc upper radix c digits all last)

number_of-snoc :
    (radix before c : ℕ) (digits : List ℕ)
    → number_of radix before (digits ++ (c ∷ []))
      ≡ number_of radix before digits * radix + digit_value c
unfolding number_of
number_of-snoc radix before c [] = refl
number_of-snoc radix before c (x ∷ digits) =
    number_of-snoc radix (before * radix + digit_value x) c digits

-- The digits that come before those already written.
record Digits (upper : Bool) (radix num : ℕ) (written : List ℕ) (result : Option (List ℕ))
    : Type 0 where
  digits : List ℕ
  written_out : result ≡ some (digits ++ written)
  value : number_of radix 0 digits ≡ num
  all : AreDigits upper radix digits

last_digit :
    (upper : Bool) (radix num : ℕ) (digits : List ℕ)
    → 2 ≤ radix
    → radix ≤ 16
    → number_of radix 0 digits ≡ num / radix
    → number_of radix 0 (digits ++ (digit upper (num % radix) ∷ [])) ≡ num
last_digit upper radix num digits lo hi e =
    let below : num % radix < radix = mod-lt num (omega (arith, lo)) in
    rw
      (
        number_of-snoc radix 0 (digit upper (num % radix)) digits,
        digit_value-digit upper (num % radix) (omega (arith, below, hi)),
        e,
      )
      (div-add-mod' num radix)

quotient_below : (n radix num : ℕ) → 2 ≤ radix → num < radix ^ suc n → num / radix < radix ^ n
quotient_below n radix num lo l =
    (div-lt_iff_lt-mul {k = radix} {x = num} {y = radix ^ n} (omega (arith, lo))).1
      (rw (← pow-suc radix n) l)

one_digit :
    (upper : Bool) (radix num : ℕ) (written : List ℕ)
    → 2 ≤ radix
    → radix ≤ 16
    → (num / radix == 0) ≡ true
    → Digits upper radix num written (some (digit upper (num % radix) ∷ written))
unfolding number_of
one_digit upper radix num written lo hi e = record {
  digits = digit upper (num % radix) ∷ [];
  written_out = refl;
  value = last_digit upper radix num [] lo hi (sym ((==_iff (num / radix) 0).0 e));
  all = (digit-IsDigit upper radix (num % radix) hi (mod-lt num (omega (arith, lo))), tt);
}

then_last :
    (upper : Bool) (radix num : ℕ) (written : List ℕ) (result : Option (List ℕ))
    → 2 ≤ radix
    → radix ≤ 16
    → Digits upper radix (num / radix) (digit upper (num % radix) ∷ written) result
    → Digits upper radix num written result
then_last upper radix num written result lo hi before = record {
  digits = before.digits ++ (digit upper (num % radix) ∷ []);
  written_out =
      rw (append_assoc before.digits (digit upper (num % radix) ∷ []) written) before.written_out;
  value = last_digit upper radix num before.digits lo hi before.value;
  all =
      AreDigits-snoc upper radix (digit upper (num % radix)) before.digits before.all
        (digit-IsDigit upper radix (num % radix) hi (mod-lt num (omega (arith, lo))));
}

-- A number below `radix ^ (places + 1)` needs `places + 1` places at most.
write_digits-Digits :
    (places : ℕ) (upper : Bool) (radix num : ℕ) (written : List ℕ)
    → 2 ≤ radix
    → radix ≤ 16
    → num < radix ^ suc places
    → Digits upper radix num written (write_digits (suc places) upper radix num written)
unfolding write_digits
write_digits-Digits zero upper radix num written lo hi l = elim (Bool-cases (num / radix == 0)) [
  | inl e ↦ rw e (one_digit upper radix num written lo hi e)
  | inr e ↦
      let below_one : num / radix < 1 =
        omega (arith, quotient_below 0 radix num lo l, pow-zero radix) in
      absurd (ground (arith, below_one, e))
]
write_digits-Digits (suc places) upper radix num written lo hi l =
    elim (Bool-cases (num / radix == 0)) [
      | inl e ↦ rw e (one_digit upper radix num written lo hi e)
      | inr e ↦ rw e (
          then_last upper radix num written _ lo hi (
            write_digits-Digits places upper radix (num / radix)
              (digit upper (num % radix) ∷ written) lo hi
              (quotient_below (suc places) radix num lo l)))
    ]

-- For every radix from 8 to 16 and every number of 32 bits: the digits that `do_printf` writes fit its buffer of
-- 16 bytes with the NUL behind them, each is a digit of that radix, and they read as that number in that radix.
pub write_digits_lem :
    (upper : Bool) (radix num : ℕ)
    → 8 ≤ radix
    → radix ≤ 16
    → num < 2 ^ 32
    → (digits : List ℕ) × (write_digits digit_places upper radix num [] ≡ some digits)
      × AreDigits upper radix digits
      × (number_of radix 0 digits ≡ num)
write_digits_lem upper radix num lo hi l =
    let written = write_digits-Digits 14 upper radix num [] (omega (arith, lo)) hi (big l) in
    (
      written.digits,
      written.written_out ∙ ap some (append-nil written.digits),
      written.all,
      written.value,
    )
  where
    big : num < 2 ^ 32 → num < radix ^ 15
    big l = omega (arith, l, pow-le-pow_left lo 15)
