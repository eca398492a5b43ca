-- ===== src/Machine/Table.antt =====
-- Which handler each interrupt has.
use cyb_os.Prelude.{
  ℕ, ◌+◌, ◌-◌, ◌==◌, ◌&&◌, not, Bool, if◌then◌else◌, Option, some, get_elem?, leb, ltb,
}
use cyb_os.Port.{irqint_start}
use cyb_os.Machine.Vectors.{Idt, Entries, syscall_int_number, kernel_gate, syscall_gate, left_alone}

-- What a loop leaves in an entry.
abbrev pub filled : (rounds i base : ℕ) → (ℕ → Bool) → (ℕ → ℕ) → Idt → (v : ℕ) → Option ℕ
filled rounds i base skip descriptor idt v =
    if leb (base + i) v && (ltb v (base + i + rounds) && not (skip (v - base)))
    then some (descriptor (v - base))
    else get_elem? idt v

-- The handler of an interrupt; `old` is what the entry holds before.
abbrev pub handler_of : Entries → (old : Option ℕ) → (v : ℕ) → Option ℕ
handler_of entries old v =
    if v == syscall_int_number
    then some (syscall_gate entries.syscall_int)
    else if leb irqint_start v && ltb v (irqint_start + 16)
    then some (kernel_gate (entries.irq (v - irqint_start)))
    else if left_alone v
    then old
    else if ltb v 32
    then some (kernel_gate (entries.exception v))
    else some (kernel_gate entries.default_int)
