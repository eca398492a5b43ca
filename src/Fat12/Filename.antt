-- ===== src/Fat12/Filename.antt =====
-- The two forms of a file name: eleven bytes on the disk, and a C string.
pub mod RoundTrip
use cyb_os.Prelude.{
  ℕ, zero, suc, ◌+◌, ◌-◌, List, [], ◌∷◌, ◌++◌, Option, none, some, drop, get_or, replicate, ◌==◌,
  if◌then◌else◌,
}
use cyb_os.Klib.Text.{strcmp, strncpy}
use cyb_os.Vfs.Lookup.{span_until, skip_until}

-- The loop that stops at a blank, or after `count` bytes.
unfoldable pub until_blank : ℕ → List ℕ → List ℕ
until_blank zero bytes = []
until_blank (suc count) [] = []
until_blank (suc count) (c ∷ bytes) = if c == b' ' then [] else c ∷ until_blank count bytes

-- The C string that begins with these bytes: those before the first NUL.
unfoldable pub c_string : List ℕ → List ℕ
c_string [] = []
c_string (c ∷ bytes) = if c == 0 then [] else c ∷ c_string bytes

unfoldable pub fat12_convert_dos_to_c_filename : List ℕ → List ℕ
unfolding until_blank c_string
fat12_convert_dos_to_c_filename dos_name =
    let extension =
      if get_or dos_name 8 b' ' == b' ' then [] else b'.' ∷ until_blank 3 (drop 8 dos_name) in
    c_string (until_blank 8 dos_name ++ extension)

-- At most `width` bytes, and blanks up to there.
unfoldable pub padded : (width : ℕ) → List ℕ → List ℕ
padded zero bytes = []
padded (suc width) [] = b' ' ∷ padded width []
padded (suc width) (c ∷ bytes) = c ∷ padded width bytes

-- The extension: what follows the dot, unless that is the first character.
unfoldable pub extension_of : (base from_dot : List ℕ) → List ℕ
extension_of [] from_dot = []
extension_of (c ∷ base) [] = []
extension_of (c ∷ base) (dot ∷ extension) = extension

-- The name before its first dot, and the extension.
unfoldable pub split_name : List ℕ → List ℕ × List ℕ
unfolding extension_of
split_name long_name =
    let base = strncpy long_name (span_until b'.' long_name) in
    (base, extension_of base (skip_until b'.' long_name))

-- The eleven bytes, and what is left in `long_name`: the dot is overwritten.
unfoldable pub fat12_convert_c_to_dos_filename : List ℕ → List ℕ × List ℕ
unfolding padded split_name
fat12_convert_c_to_dos_filename long_name =
    if strcmp long_name (b'.' ∷ []) == 0
    then (b'.' ∷ replicate 10 b' ', long_name)
    else if strcmp long_name (b'.' ∷ b'.' ∷ []) == 0
    then (b'.' ∷ b'.' ∷ replicate 9 b' ', long_name)
    else (let (base, extension) = split_name long_name in
        (padded 8 base ++ padded 3 extension, base))
