-- ===== src/Machine/Vectors.antt =====
-- The table of interrupts: `idt_set_descriptor`, `idt_get_descriptor` and `idt_init` of idt.c.
use cyb_os.Prelude.{
  ℕ, zero, suc, ◌+◌, ◌==◌, ◌||◌, Bool, false, if◌then◌else◌, Option, List, get_elem?, set,
}
use cyb_os.Gdt.{idt_create_descriptor}
use cyb_os.Port.{irqint_start}

-- `_kernel_idt`, 256 descriptors.
abbrev pub Idt : Type 0
Idt = List ℕ

-- The addresses of the handlers.
pub record Entries : Type 0 where
  pub default_int : ℕ
  pub syscall_int : ℕ
  pub irq : ℕ → ℕ
  pub exception : ℕ → ℕ

unfoldable pub idt_set_descriptor : (index descriptor : ℕ) → Idt → Idt
idt_set_descriptor index descriptor idt = set idt index descriptor

unfoldable pub idt_get_descriptor : (index : ℕ) → Idt → Option ℕ
idt_get_descriptor index idt = get_elem? idt index

abbrev pub syscall_int_number : ℕ
syscall_int_number = 66

-- `SEL(KERNEL_CODE_DESCR, TI_GDT+RPL_RING0)`, and the flags of the two kinds of gate.
abbrev pub kernel_gate : (handler : ℕ) → ℕ
kernel_gate handler = idt_create_descriptor handler 8 142

abbrev pub syscall_gate : (handler : ℕ) → ℕ
syscall_gate handler = idt_create_descriptor handler 8 239

-- `if (i == 6 || i == 8 || i == 13 || i == 14) continue;`
abbrev pub left_alone : ℕ → Bool
left_alone i = i == 6 || (i == 8 || (i == 13 || i == 14))

-- A loop over the entries from `base + i` on.
unfoldable pub fill : (rounds i base : ℕ) → (skip : ℕ → Bool) → (descriptor : ℕ → ℕ) → Idt → Idt
unfolding idt_set_descriptor
fill zero i base skip descriptor idt = idt
fill (suc rounds) i base skip descriptor idt =
    fill rounds (suc i) base skip descriptor
      (if skip i then idt else idt_set_descriptor (base + i) (descriptor i) idt)

-- `garbage` is what the memory of the table holds at first.
unfoldable pub idt_init : Entries → (garbage : Idt) → Idt
unfolding fill idt_set_descriptor
idt_init entries garbage =
    let defaults = fill 256 0 0 left_alone (λ _. kernel_gate entries.default_int) garbage in
    let irqs = fill 16 0 irqint_start (λ _. false) (λ i. kernel_gate (entries.irq i)) defaults in
    let exceptions = fill 32 0 0 left_alone (λ i. kernel_gate (entries.exception i)) irqs in
    idt_set_descriptor syscall_int_number (syscall_gate entries.syscall_int) exceptions
