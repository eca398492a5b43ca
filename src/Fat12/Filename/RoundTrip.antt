-- ===== src/Fat12/Filename/RoundTrip.antt =====
-- A name of the 8.3 form comes back from the disk as it was.
use mathlib.Core.List.{append-nil}
use cyb_os.Prelude.{
  ℕ, zero, suc, ◌≤◌, ◌<◌, ◌≡◌, ◌≢◌, ◌∙◌, refl, sym, ap, arith, List, [], ◌∷◌, ◌++◌, drop, get_or,
  length, ◌==◌, false,
}
use cyb_os.Klib.Text.{strcmp, strncpy}
use cyb_os.Vfs.Lookup.{span_until, skip_until}
use cyb_os.Vfs.Lookup.Colon.{Lacks, span_until-append, skip_until-append, strncpy-append}
use cyb_os.Fat12.Filename.{
  until_blank, c_string, padded, split_name, fat12_convert_dos_to_c_filename,
  fat12_convert_c_to_dos_filename,
}

-- Characters of a name: bytes, and neither NUL, a blank nor a dot.
unfoldable pub AllPlain : List ℕ → Type 0
AllPlain [] = Unit
AllPlain (c ∷ name) = (0 < c) × (c < 256) × (c ≢ b' ') × (c ≢ b'.') × AllPlain name

-- The name with its extension, if there is one.
unfoldable pub joined : (base extension : List ℕ) → List ℕ
joined base [] = base
joined base (c ∷ extension) = base ++ (b'.' ∷ c ∷ extension)

until_blank-padded :
    (width : ℕ) (name rest : List ℕ)
    → AllPlain name
    → length name ≤ width
    → until_blank width (padded width name ++ rest) ≡ name
unfolding AllPlain until_blank padded
until_blank-padded zero [] rest plain l = refl
until_blank-padded zero (c ∷ name) rest plain l = absurd (omega (arith, l))
until_blank-padded (suc width) [] rest plain l = refl
until_blank-padded (suc width) (c ∷ name) rest (p, b, blank, d, plain) l =
    let ih = until_blank-padded width name rest plain (omega (arith, l)) in
    let other : (c == b' ') ≡ false = ground (arith, blank) in rw (other, ih) refl

c_string-plain :
    (name rest : List ℕ) → AllPlain name → c_string (name ++ rest) ≡ name ++ c_string rest
unfolding AllPlain c_string
c_string-plain [] rest plain = refl
c_string-plain (c ∷ name) rest (p, b, blank, d, plain) =
    let other : (c == 0) ≡ false = ground (arith, p) in
    rw (other, c_string-plain name rest plain) refl

drop-padded : (width : ℕ) (name rest : List ℕ) → drop width (padded width name ++ rest) ≡ rest
unfolding padded
drop-padded zero name rest = refl
drop-padded (suc width) [] rest = drop-padded width [] rest
drop-padded (suc width) (c ∷ name) rest = drop-padded width name rest

get_or-padded :
    (width : ℕ) (name rest : List ℕ)
    → get_or (padded width name ++ rest) width b' ' ≡ get_or rest 0 b' '
unfolding padded
get_or-padded zero name [] = refl
get_or-padded zero name (x ∷ rest) = refl
get_or-padded (suc width) [] rest = get_or-padded width [] rest
get_or-padded (suc width) (c ∷ name) rest = get_or-padded width name rest

first_plain : (c : ℕ) (name : List ℕ) → AllPlain (c ∷ name) → (c == b' ') ≡ false
unfolding AllPlain
first_plain c name (p, b, blank, d, plain) = ground (arith, blank)

whole_extension :
    (name : List ℕ) → AllPlain name → length name ≤ 3 → until_blank 3 (padded 3 name) ≡ name
whole_extension name plain l =
    ap (until_blank 3) (sym (append-nil (padded 3 name))) ∙ until_blank-padded 3 name [] plain l

c_string-whole : (name : List ℕ) → AllPlain name → c_string name ≡ name
unfolding c_string
c_string-whole name plain =
    ap c_string (sym (append-nil name)) ∙ c_string-plain name [] plain ∙ append-nil name

-- The bytes of the disk, decoded.
decoded :
    (base extension : List ℕ)
    → AllPlain base
    → AllPlain extension
    → length base ≤ 8
    → length extension ≤ 3
    → fat12_convert_dos_to_c_filename (padded 8 base ++ padded 3 extension) ≡ joined base extension
unfolding fat12_convert_dos_to_c_filename joined padded
decoded base [] b e lb le =
    rw
      (
        until_blank-padded 8 base (padded 3 []) b lb,
        get_or-padded 8 base (padded 3 []),
        c_string-plain base [] b,
        append-nil base,
      )
      refl
decoded base (c ∷ extension) b e lb le =
    let no_blank : (c == b' ') ≡ false = first_plain c extension e in
    rw
      (
        until_blank-padded 8 base (padded 3 (c ∷ extension)) b lb,
        get_or-padded 8 base (padded 3 (c ∷ extension)),
        no_blank,
        drop-padded 8 base (padded 3 (c ∷ extension)),
        whole_extension (c ∷ extension) e le,
        c_string-plain base (b'.' ∷ c ∷ extension) b,
        c_string-whole (c ∷ extension) e,
      )
      refl

plain-Lacks : (name : List ℕ) → AllPlain name → Lacks b'.' name
unfolding AllPlain
plain-Lacks [] plain = tt
plain-Lacks (c ∷ name) (p, b, blank, d, plain) = (ground (arith, d), plain-Lacks name plain)

skip_until-Lacks : (c : ℕ) (str : List ℕ) → Lacks c str → skip_until c str ≡ []
unfolding skip_until
skip_until-Lacks c [] h = refl
skip_until-Lacks c (x ∷ str) h = rw h.0 (skip_until-Lacks c str h.1)

span_until-Lacks : (c : ℕ) (str : List ℕ) → Lacks c str → span_until c str ≡ length str
unfolding span_until
span_until-Lacks c [] h = refl
span_until-Lacks c (x ∷ str) h = rw h.0 (ap suc (span_until-Lacks c str h.1))

strncpy-whole : (str : List ℕ) → strncpy str (length str) ≡ str
unfolding strncpy
strncpy-whole [] = refl
strncpy-whole (x ∷ str) = ap (λ l. x ∷ l) (strncpy-whole str)

split_joined :
    (base extension : List ℕ)
    → AllPlain base
    → AllPlain extension
    → 0 < length base
    → split_name (joined base extension) ≡ (base, extension)
unfolding split_name joined
split_joined [] extension b e l = absurd (omega (arith, l))
split_joined (x ∷ base) [] b e l =
    let no_dot = plain-Lacks (x ∷ base) b in
    rw
      (
        skip_until-Lacks b'.' (x ∷ base) no_dot,
        span_until-Lacks b'.' (x ∷ base) no_dot,
        strncpy-whole (x ∷ base),
      )
      refl
split_joined (x ∷ base) (c ∷ extension) b e l =
    let no_dot = plain-Lacks (x ∷ base) b in
    rw
      (
        skip_until-append b'.' (x ∷ base) (c ∷ extension) no_dot,
        span_until-append b'.' (x ∷ base) (c ∷ extension) no_dot,
        strncpy-append (x ∷ base) (b'.' ∷ c ∷ extension),
      )
      refl

-- No name of that form is `.` or `..`.
no_dots :
    (base extension dots : List ℕ)
    → AllPlain base
    → 0 < length base
    → (strcmp (joined base extension) (b'.' ∷ dots) == 0) ≡ false
unfolding joined strcmp AllPlain
no_dots [] extension dots b l = absurd (omega (arith, l))
no_dots (x ∷ base) [] dots (p, w, blank, d, plain) l = ground (arith, d, p, w)
no_dots (x ∷ base) (c ∷ extension) dots (p, w, blank, d, plain) l = ground (arith, d, p, w)

encoded :
    (base extension : List ℕ)
    → AllPlain base
    → AllPlain extension
    → 0 < length base
    → fat12_convert_c_to_dos_filename (joined base extension)
      ≡ (padded 8 base ++ padded 3 extension, base)
unfolding fat12_convert_c_to_dos_filename
encoded base extension b e l =
    rw (no_dots base extension [] b l, no_dots base extension (b'.' ∷ []) b l)
      (ap (λ p. (padded 8 p.0 ++ padded 3 p.1, p.0)) (split_joined base extension b e l))

-- For a base of one to eight characters and an extension of at most three, none of them NUL, a blank or a dot:
-- the name that they make, with a dot between if there is an extension, is converted to eleven bytes that convert back to it.
pub fat12_convert_dos_to_c_filename-c_to_dos :
    (base extension : List ℕ)
    → AllPlain base
    → AllPlain extension
    → 0 < length base
    → length base ≤ 8
    → length extension ≤ 3
    → fat12_convert_dos_to_c_filename (fat12_convert_c_to_dos_filename (joined base extension)).0
      ≡ joined base extension
fat12_convert_dos_to_c_filename-c_to_dos base extension b e l lb le =
    ap (λ p. fat12_convert_dos_to_c_filename p.0) (encoded base extension b e l)
    ∙ decoded base extension b e lb le
