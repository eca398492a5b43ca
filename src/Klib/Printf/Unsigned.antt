-- ===== src/Klib/Printf/Unsigned.antt =====
-- What `do_printf` prints for a single conversion of a number.
use cyb_os.Prelude.{ℕ, List, [], Option, none, some}
use cyb_os.Klib.Printf.{Spec, start, awaiting_modifier, with_args, then_output, printf_from}

-- The conversions `%u`, `%x`, `%X` and `%o`.
pub data Unsigned : Type 0 where
  decimal : Unsigned
  hex : Unsigned
  upper_hex : Unsigned
  octal : Unsigned

abbrev pub letter : Unsigned → ℕ
letter decimal = b'u'
letter hex = b'x'
letter upper_hex = b'X'
letter octal = b'o'

abbrev pub radix : Unsigned → ℕ
radix decimal = 10
radix hex = 16
radix upper_hex = 16
radix octal = 8

abbrev plain_spec : Spec
plain_spec = record start { phase = awaiting_modifier }

-- The last conversion of a format, with the last argument.
last_of_format : Option (List ℕ) → Option (List ℕ)
unfolding printf_from
last_of_format o = elim (with_args [] o) [
  | none ↦ none
  | some converted ↦ then_output converted.0 (printf_from start [] converted.1)
]
