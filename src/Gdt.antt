-- ===== src/Gdt.antt =====
-- The descriptors of gdt.c, as 64-bit words.
pub mod Fields
use Prim.Native.Nat.{bit_and, bit_or}
use cyb_os.Prelude.{ℕ, ◌-◌, ◌*◌, ◌/◌, ◌%◌, ◌^◌, List, Option, some, none, get_elem?, set}
use cyb_os.Prelude.Run.{ok, fault, Cmd}

-- `LO16`, `HI16`, `LO8` and `HI8` of kernel.h.
abbrev pub lo16 : ℕ → ℕ
lo16 addr32 = bit_and addr32 (2 ^ 16 - 1)

abbrev pub hi16 : ℕ → ℕ
hi16 addr32 = bit_and addr32 (2 ^ 32 - 2 ^ 16) / 2 ^ 16

abbrev pub lo8 : ℕ → ℕ
lo8 addr16 = bit_and addr16 (2 ^ 8 - 1)

abbrev pub hi8 : ℕ → ℕ
hi8 addr16 = bit_and addr16 (2 ^ 16 - 2 ^ 8) / 2 ^ 8

unfoldable pub gdt_set_descriptor : (index descriptor : ℕ) → List ℕ → List ℕ
gdt_set_descriptor index descriptor kernel_gdt = set kernel_gdt index descriptor

unfoldable pub gdt_get_descriptor : (index : ℕ) → List ℕ → Option ℕ
gdt_get_descriptor index kernel_gdt = get_elem? kernel_gdt index

unfoldable pub gdt_get_base : ℕ → ℕ
gdt_get_base descriptor =
    bit_or (bit_and (descriptor / 2 ^ 48) (2 ^ 16 - 1) * 2 ^ 16 % 2 ^ 32)
      (bit_and (descriptor / 2 ^ 16) (2 ^ 24 - 1))

unfoldable pub gdt_get_limit : ℕ → ℕ
gdt_get_limit descriptor =
    bit_or (bit_and (descriptor / 2 ^ 48) (2 ^ 8 - 1) * 2 ^ 16) (bit_and descriptor (2 ^ 16 - 1))

unfoldable pub gdt_get_flags : ℕ → ℕ
gdt_get_flags descriptor = descriptor / 2 ^ 40 % 2 ^ 16

unfoldable pub gdt_create_descriptor : (base limit flags1 flags2 : ℕ) → ℕ
gdt_create_descriptor base limit flags1 flags2 =
    let d = bit_or limit (lo16 base * 2 ^ 16) in
    let d = bit_or d (lo8 (hi16 base) * 2 ^ 32) in
    let d = bit_or d (flags1 * 2 ^ 40) in
    let d = bit_or d (bit_and (lo8 (hi16 limit)) 15 * 2 ^ 48) in
    let d = bit_or d (bit_and flags2 15 * 2 ^ 48) in bit_or d (hi8 (hi16 base) * 2 ^ 56)

unfoldable pub idt_create_descriptor : (offset selector flags : ℕ) → ℕ
idt_create_descriptor offset selector flags =
    let d = bit_or (lo16 offset) (hi16 offset * 2 ^ 48) in
    let d = bit_or d (selector * 2 ^ 16) in bit_or d (flags * 2 ^ 40)
