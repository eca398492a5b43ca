-- ===== src/Mem/Kmem.antt =====
-- The allocators of kmem.c and heap.c. An address and its physical address come as a pair.
pub mod Blocks
use Prim.Native.Nat.{bit_and}
use cyb_os.Prelude.{
  ℕ, zero, suc, ◌+◌, ◌-◌, ◌*◌, ◌/◌, ◌%◌, ◌^◌, Bool, true, false, ◌&&◌, not, Option, some, none, ltb,
  ◌==◌, if◌then◌else◌,
}
use cyb_os.Prelude.Run.{fault, panic, out_of_fuel, Cmd, pure, ◌>>=◌, ◌>>◌, gets, modify}
use cyb_os.Mem.State.{Directory, Mode, preheap, heap, Mem, page_of, offset_of}

unfoldable pub get_physical_address : (directory virtual_address : ℕ) → Cmd Mem ℕ
get_physical_address directory virtual_address s =
    let frame = virtual_address / 2 ^ 12 in
    let table = (s.directories directory).tables (frame / 1024) in
    if table == 0
    then fault
    else pure ((page_of (s.pages table (frame % 1024)) + offset_of virtual_address) % 2 ^ 32) s

-- The top of the heap, rounded up to a page.
unfoldable pub aligned : Bool → ℕ → ℕ
aligned pageboundary top =
    if pageboundary && not (page_of top == 0) then (page_of top + 2 ^ 12) % 2 ^ 32 else top

unfoldable pub preheap_kmalloc : ℕ → Bool → Cmd Mem (ℕ × ℕ)
preheap_kmalloc size pageboundary = do
  modify (λ s. record s { k_preheap_top = aligned pageboundary s.k_preheap_top })
  mem_ptr ← gets (λ s. s.k_preheap_top)
  modify (λ s. record s {
    k_preheap_top = (s.k_preheap_top + size) % 2 ^ 32;
    unfreeable_kmem = (s.unfreeable_kmem + size) % 2 ^ 32;
  })
  pure (mem_ptr, (mem_ptr + 2 ^ 30) % 2 ^ 32)

unfoldable pub heap_expand : ℕ → Cmd Mem (Unit {0})
heap_expand size = modify (λ s. record s { k_heap_end = (s.k_heap_end + size) % 2 ^ 32 })

unfoldable pub heap_shrink : ℕ → Cmd Mem (Unit {0})
heap_shrink size = modify (λ s. record s { k_heap_end = (s.k_heap_end + (2 ^ 32 - size)) % 2 ^ 32 })

-- `MIN_HEAP_GROWSIZE`
abbrev pub min_heap_growsize : ℕ
min_heap_growsize = 2 ^ 16

-- The `while` loop.
unfoldable pub expand_for : ℕ → (size : ℕ) → Cmd Mem (Unit {0})
expand_for zero size = λ _. out_of_fuel
expand_for (suc fuel) size = do
  s ← gets (λ s. s)
  let rest = heap_expand min_heap_growsize >> expand_for fuel size
  if ltb s.k_heap_end ((s.k_heap_top + size) % 2 ^ 32) then rest else pure tt

-- The physical address is looked up when the caller asks for it.
unfoldable pub heap_kmalloc :
    ℕ → (size : ℕ) → (pageboundary wants_physical : Bool) → Cmd Mem (ℕ × ℕ)
heap_kmalloc fuel size pageboundary wants_physical = do
  expand_for fuel size
  modify (λ s. record s { k_heap_top = aligned pageboundary s.k_heap_top })
  mem_ptr ← gets (λ s. s.k_heap_top)
  directory ← gets (λ s. s.kernel_pagedirectory)
  physical ← if wants_physical then get_physical_address directory mem_ptr else pure 0
  modify (λ s. record s { k_heap_top = (s.k_heap_top + size) % 2 ^ 32 })
  pure (mem_ptr, physical)

unfoldable pub allocate : ℕ → (size : ℕ) → (pageboundary wants_physical : Bool) → Cmd Mem (ℕ × ℕ)
allocate fuel size pageboundary wants_physical = do
  mode ← gets (λ s. s.mode)
  elim mode [
    | preheap ↦ preheap_kmalloc size pageboundary
    | heap ↦ heap_kmalloc fuel size pageboundary wants_physical
  ]

unfoldable pub kmalloc : ℕ → ℕ → Cmd Mem ℕ
kmalloc fuel size = allocate fuel size false false >>= λ r. pure r.0

unfoldable pub kmalloc_pageboundary : ℕ → ℕ → Cmd Mem ℕ
kmalloc_pageboundary fuel size = allocate fuel size true false >>= λ r. pure r.0

unfoldable pub kmalloc_physical : ℕ → ℕ → Cmd Mem (ℕ × ℕ)
kmalloc_physical fuel size = allocate fuel size false true

unfoldable pub kmalloc_pageboundary_physical : ℕ → ℕ → Cmd Mem (ℕ × ℕ)
kmalloc_pageboundary_physical fuel size = allocate fuel size true true

-- Before the heap is there nothing can be freed, and the free of the heap does nothing.
unfoldable pub kfree : ℕ → Cmd Mem (Unit {0})
kfree ptr = do mode ← gets (λ s. s.mode); elim mode [ preheap ↦ λ _. panic | heap ↦ pure tt ]

-- `end` is the address behind the kernel, which the linker gives.
unfoldable pub kmem_init : (end total_sys_memory : ℕ) → Cmd Mem (Unit {0})
kmem_init end total_sys_memory = modify (λ s. record s {
  memory_total = total_sys_memory;
  unfreeable_kmem = 0;
  k_preheap_start = end;
  k_preheap_top = end;
})
