-- ===== src/Gdt/Fields.antt =====
-- Reading the fields of a descriptor back.
use cyb_os.Prelude.{ℕ, ◌+◌, ◌-◌, ◌*◌, ◌/◌, ◌%◌, ◌^◌, ◌<◌, ◌≡◌, arith}
use cyb_os.Word.Bits.{bit_and-ones, bit_and-shifted}
use cyb_os.Word.Fields.{bit_or-above}
use cyb_os.Gdt.{hi16, hi8, gdt_create_descriptor}

hi16_lem : (x : ℕ) → x < 2 ^ 32 → hi16 x ≡ x / 2 ^ 16
hi16_lem x h = omega (arith, bit_and-shifted 16 x (2 ^ 16 - 1), bit_and-ones 16 (x / 2 ^ 16))

hi8_lem : (x : ℕ) → x < 2 ^ 16 → hi8 x ≡ x / 2 ^ 8
hi8_lem x h = omega (arith, bit_and-shifted 8 x (2 ^ 8 - 1), bit_and-ones 8 (x / 2 ^ 8))

-- The descriptor as a sum of its fields, where they do not overlap.
pub gdt_create_descriptor_lem :
    (base limit flags1 flags2 : ℕ)
    → base < 2 ^ 32
    → limit < 2 ^ 16
    → flags1 < 2 ^ 8
    → flags2 % 16 ≡ 0
    → gdt_create_descriptor base limit flags1 flags2
      ≡ limit + base % 2 ^ 24 * 2 ^ 16 + flags1 * 2 ^ 40 + base / 2 ^ 24 * 2 ^ 56
unfolding gdt_create_descriptor
gdt_create_descriptor_lem base limit flags1 flags2 b l f g =
    let b16 = base % 2 ^ 16 in
    let b8 = base / 2 ^ 16 % 2 ^ 8 in
    let d1 = limit + b16 * 2 ^ 16 in
    let d2 = d1 + b8 * 2 ^ 32 in
    let d3 = d2 + flags1 * 2 ^ 40 in
    let top = base / 2 ^ 16 / 2 ^ 8 in
    let nothing : limit / 2 ^ 16 % 2 ^ 8 % 2 ^ 4 ≡ 0 = omega (arith, l) in
    rw
      (
        bit_and-ones 16 base,
        hi16_lem base b,
        hi16_lem limit (omega (arith, l)),
        hi8_lem (base / 2 ^ 16) (omega (arith, b)),
        bit_and-ones 8 (base / 2 ^ 16),
        bit_and-ones 8 (limit / 2 ^ 16),
        bit_and-ones 4 (limit / 2 ^ 16 % 2 ^ 8),
        bit_and-ones 4 flags2,
        nothing,
        g,
        bit_or-above 16 limit b16 l,
        bit_or-above 32 d1 b8 (omega (arith, l)),
        bit_or-above 40 d2 flags1 (omega (arith, l)),
        bit_or-above 48 d3 0 (omega (arith, l, f)),
        bit_or-above 48 (d3 + 0 * 2 ^ 48) 0 (omega (arith, l, f)),
        bit_or-above 56 (d3 + 0 * 2 ^ 48 + 0 * 2 ^ 48) top (omega (arith, l, f)),
      )
      (omega arith)
