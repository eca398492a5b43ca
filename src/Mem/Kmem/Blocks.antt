-- ===== src/Mem/Kmem/Blocks.antt =====
-- The blocks that the allocators hand out.
use cyb_os.Prelude.{
  ℕ, zero, suc, ◌+◌, ◌-◌, ◌*◌, ◌/◌, ◌%◌, ◌^◌, ◌≤◌, ◌<◌, ◌≡◌, ap, ◌∙◌, arith, Bool, true, false, ltb,
  Bool-cases, inl, inr, refl, ◌==◌, if◌then◌else◌,
}
use cyb_os.Prelude.Run.{ok}
use cyb_os.Word.Bits.{bit_and-ones, bit_and-shifted}
use cyb_os.Mem.State.{Mem, page_of, offset_of}
use cyb_os.Mem.Kmem.{
  get_physical_address, aligned, preheap_kmalloc, heap_expand, expand_for, heap_kmalloc,
}

-- `x & 0xFFFFF000` of a 32-bit word.
pub page_of_lem : (x : ℕ) → x < 2 ^ 32 → page_of x ≡ x / 2 ^ 12 * 2 ^ 12
page_of_lem x h = omega (arith, bit_and-shifted 12 x (2 ^ 20 - 1), bit_and-ones 20 (x / 2 ^ 12))

-- `aligned` goes up by a page at most, and to the start of one when it rounds.
aligned_lem :
    (pageboundary : Bool) (top : ℕ)
    → top + 2 ^ 12 < 2 ^ 32
    → (top ≤ aligned pageboundary top)
      × (aligned pageboundary top ≤ top + 2 ^ 12)
      × (pageboundary ≡ true → 2 ^ 12 ≤ top → aligned pageboundary top % 2 ^ 12 ≡ 0)
unfolding aligned
aligned_lem pageboundary top h = ground (arith, page_of_lem top (omega (arith, h)))

-- Before the heap is there, an allocation that stays below 4 GB returns a block above all earlier ones, ends where
-- the next one starts, and starts on a page when that is asked for; the physical address is 3 GB lower.
pub preheap_kmalloc_lem :
    (size : ℕ) (pageboundary : Bool) (s : Mem)
    → s.k_preheap_top + size + 2 ^ 12 < 2 ^ 32
    → 3 * 2 ^ 30 ≤ s.k_preheap_top
    → (p : ℕ) × (s' : Mem) × (preheap_kmalloc size pageboundary s ≡ ok (p, p - 3 * 2 ^ 30) s')
      × (s.k_preheap_top ≤ p)
      × (s'.k_preheap_top ≡ p + size)
      × (pageboundary ≡ true → p % 2 ^ 12 ≡ 0)
unfolding preheap_kmalloc
preheap_kmalloc_lem size pageboundary s h high =
    let (above, below, page) = aligned_lem pageboundary s.k_preheap_top (omega (arith, h)) in
    (
      aligned pageboundary s.k_preheap_top,
      record s {
        k_preheap_top = (aligned pageboundary s.k_preheap_top + size) % 2 ^ 32;
        unfreeable_kmem = (s.unfreeable_kmem + size) % 2 ^ 32;
      },
      ap
          (λ (q : ℕ).
            ok (aligned pageboundary s.k_preheap_top, q)
              (record s {
                k_preheap_top = (aligned pageboundary s.k_preheap_top + size) % 2 ^ 32;
                unfreeable_kmem = (s.unfreeable_kmem + size) % 2 ^ 32;
              }))
          (omega (arith, above, below, h, high)),
      above,
      omega (arith, h, below),
      λ e. page e (omega (arith, high)),
    )

expand_for-step :
    (fuel size : ℕ) (s : Mem)
    → ltb s.k_heap_end (s.k_heap_top + size) ≡ true
    → s.k_heap_top + size + 2 ^ 16 < 2 ^ 32
    → expand_for (suc fuel) size s
      ≡ expand_for fuel size (record s { k_heap_end = (s.k_heap_end + 2 ^ 16) % 2 ^ 32 })
unfolding expand_for heap_expand
expand_for-step fuel size s e h = ground arith

-- The loop that grows the heap ends after the steps of 64 KB that it takes, with room for the block.
expand_for_lem :
    (n size : ℕ) (s : Mem)
    → s.k_heap_top + size + 2 ^ 16 < 2 ^ 32
    → s.k_heap_end < 2 ^ 32
    → s.k_heap_top + size ≤ s.k_heap_end + n * 2 ^ 16
    → (end : ℕ) × (expand_for (suc n) size s ≡ ok tt (record s { k_heap_end = end }))
      × (s.k_heap_top + size ≤ end)
      × (s.k_heap_end ≤ end)
unfolding expand_for heap_expand
expand_for_lem zero size s h low enough =
    (s.k_heap_end, ground arith, omega (arith, enough), omega arith)
expand_for_lem (suc n) size s h low enough =
    elim (Bool-cases (ltb s.k_heap_end (s.k_heap_top + size))) [
      | inr e ↦ (s.k_heap_end, ground arith, ground arith, omega arith)
      | inl e ↦
          let grown = (s.k_heap_end + 2 ^ 16) % 2 ^ 32 in
          let exact : grown ≡ s.k_heap_end + 2 ^ 16 = ground arith in
          let (end, done, room, more) =
            expand_for_lem n size (record s { k_heap_end = grown }) h (omega arith)
              (omega (arith, exact, enough)) in
          (end, expand_for-step (suc n) size s e h ∙ done, room, omega (arith, exact, more))
    ]

-- A block of the heap that need not start on a page is the one at the top; it ends at the new top, inside the
-- heap, which has grown when it was too small, and never shrinks. The heap stays below 4 GB by the step of 64 KB,
-- and the loop gets fuel for the steps. If the physical address is asked for, the kernel's directory has a table for
-- the block, and the address is the one that `get_physical_address` gives for it; otherwise it is 0.
pub heap_kmalloc_lem :
    (n size : ℕ) (wants_physical : Bool) (s : Mem)
    → s.k_heap_top + size + 2 ^ 16 < 2 ^ 32
    → s.k_heap_end < 2 ^ 32
    → s.k_heap_top + size ≤ s.k_heap_end + n * 2 ^ 16
    → (wants_physical ≡ true
        → ((s.directories s.kernel_pagedirectory).tables (s.k_heap_top / 2 ^ 12 / 1024) == 0)
          ≡ false)
    → (phys : ℕ) × (s' : Mem) × (heap_kmalloc (suc n) size false wants_physical s
        ≡ ok (s.k_heap_top, phys) s')
      × (if wants_physical
          then get_physical_address s.kernel_pagedirectory s.k_heap_top s' ≡ ok phys s'
          else phys ≡ 0)
      × (s'.k_heap_top ≡ s.k_heap_top + size)
      × (s'.k_heap_top ≤ s'.k_heap_end)
      × (s.k_heap_end ≤ s'.k_heap_end)
unfolding heap_kmalloc aligned get_physical_address
heap_kmalloc_lem n size false s h low enough there =
    let (end, done, room, more) = expand_for_lem n size s h low enough in
    (
      0,
      record s { k_heap_end = end; k_heap_top = (s.k_heap_top + size) % 2 ^ 32 },
      ground (arith, done),
      refl,
      omega (arith, h),
      omega (arith, h, room),
      more,
    )
heap_kmalloc_lem n size true s h low enough there =
    let (end, done, room, more) = expand_for_lem n size s h low enough in
    let table = (s.directories s.kernel_pagedirectory).tables (s.k_heap_top / 2 ^ 12 / 1024) in
    let mapped : (table == 0) ≡ false = there refl in
    (
      (page_of (s.pages table (s.k_heap_top / 2 ^ 12 % 1024)) + offset_of s.k_heap_top) % 2 ^ 32,
      record s { k_heap_end = end; k_heap_top = (s.k_heap_top + size) % 2 ^ 32 },
      ground (arith, done, mapped),
      ground (arith, mapped),
      omega (arith, h),
      omega (arith, h, room),
      more,
    )
