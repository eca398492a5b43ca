-- ===== src/Mem/Paging.antt =====
-- Page directories and page tables: paging.c, and `heap_init` of heap.c.
pub mod Mapped
use Prim.Native.Nat.{bit_or}
use cyb_os.Prelude.{
  ℕ, zero, suc, ◌+◌, ◌-◌, ◌*◌, ◌/◌, ◌%◌, ◌^◌, Bool, true, false, not, Option, some, none, ◌==◌,
  if◌then◌else◌,
}
use cyb_os.Prelude.Run.{fault, panic, out_of_fuel, Cmd, pure, ◌>>=◌, ◌>>◌, gets, modify}
use cyb_os.Mem.Bitmap.{bm_set, bm_findfirst, bm_clear}
use cyb_os.Mem.State.{Directory, Mode, preheap, heap, Mem, put, on_bitmap}
use cyb_os.Mem.Kmem.{kmalloc_pageboundary_physical}

abbrev pub pageflag_present : ℕ
pageflag_present = 1

abbrev pub pageflag_readwrite : ℕ
pageflag_readwrite = 2

abbrev pub pageflag_user : ℕ
pageflag_user = 4

-- `sizeof (pagetable_t)` and `sizeof (pagedirectory_t)`
abbrev pub pagetable_size : ℕ
pagetable_size = 4096

abbrev pub pagedirectory_size : ℕ
pagedirectory_size = 8196

-- The first free frame, marked; a panic when there is none.
unfoldable pub take_frame : Cmd Mem ℕ
take_frame = do
  found ← on_bitmap bm_findfirst
  elim found [
    | none ↦ λ _. panic
    | some frame_index ↦ on_bitmap (bm_set frame_index) >> pure frame_index
  ]

-- `page` is a page of a table.
unfoldable pub allocate_pageframe : (table page : ℕ) → (rw level : Bool) → Cmd Mem (Unit {0})
allocate_pageframe table page rw level = do
  entry ← gets (λ s. s.pages table page)
  if not (entry == 0) then pure tt else (do
    index ← take_frame
    let entry = bit_or (index * 2 ^ 12 % 2 ^ 32) pageflag_present
    let entry = if rw then bit_or entry pageflag_readwrite else entry
    let entry = if level then bit_or entry pageflag_user else entry
    modify (λ s. record s { pages = put s.pages table (put (s.pages table) page entry) }))

unfoldable pub create_pagedirectory : ℕ → Cmd Mem ℕ
create_pagedirectory fuel = do
  (pagedir, phys_addr) ← kmalloc_pageboundary_physical fuel pagedirectory_size
  modify (λ s. record s {
    directories =
        put s.directories pagedir
          (record { phystables = λ _. 0; physical_address = phys_addr; tables = λ _. 0 });
  })
  pure pagedir

-- The table of a directory, created where there is none.
unfoldable pub ensure_table : ℕ → (directory dst_table : ℕ) → Cmd Mem (Unit {0})
ensure_table fuel directory dst_table = do
  table ← gets (λ s. (s.directories directory).tables dst_table)
  if not (table == 0) then pure tt else (do
    (table, tmp) ← kmalloc_pageboundary_physical fuel pagetable_size
    modify (λ s. record s {
      directories = put s.directories directory (record (s.directories directory) {
        tables = put (s.directories directory).tables dst_table table;
        phystables = put (s.directories directory).phystables dst_table (bit_or tmp 7);
      });
      pages = put s.pages table (λ _. 0);
    }))

unfoldable pub create_pageframe : ℕ → (directory dst_address pagelevels : ℕ) → Cmd Mem (Unit {0})
create_pageframe fuel directory dst_address pagelevels = do
  let dst_frame = dst_address / 2 ^ 12
  let dst_table = dst_frame / 1024
  let dst_page = dst_frame % 1024
  ensure_table fuel directory dst_table
  table ← gets (λ s. (s.directories directory).tables dst_table)
  entry ← gets (λ s. s.pages table dst_page)
  if not (entry == 0) then pure tt else (do
    frame_index ← take_frame
    modify (λ s. record s {
      pages =
          put s.pages table
            (put (s.pages table) dst_page (bit_or (frame_index * 2 ^ 12 % 2 ^ 32) pagelevels));
    }))

unfoldable pub map_virtual_memory :
    ℕ
    → (directory src_address dst_address pagelevels : ℕ) → (set_bitmap : Bool) → Cmd Mem (Unit {0})
map_virtual_memory fuel directory src_address dst_address pagelevels set_bitmap = do
  physical_address ← gets (λ s. (s.directories directory).physical_address)
  let src_frame = src_address / 2 ^ 12
  let dst_frame = dst_address / 2 ^ 12
  let dst_table = dst_frame / 1024
  let dst_page = dst_frame % 1024
  if physical_address == 0 then pure tt else (do
    ensure_table fuel directory dst_table
    table ← gets (λ s. (s.directories directory).tables dst_table)
    modify (λ s. record s {
      pages =
          put s.pages table
            (put (s.pages table) dst_page (bit_or (src_frame * 2 ^ 12 % 2 ^ 32) pagelevels));
    })
    if set_bitmap then on_bitmap (bm_set src_frame) else pure tt)

-- The `do` loop, `count` rounds from the offset on. `count` is `size / 0x1000 + 1`, so not 0. The directory is that of
-- the current task.
unfoldable pub map_pages :
    (count fuel directory physical_address virtual_address off : ℕ) → Cmd Mem (Unit {0})
map_pages zero fuel directory physical_address virtual_address off = pure tt
map_pages (suc count) fuel directory physical_address virtual_address off =
    map_virtual_memory fuel directory ((physical_address + off) % 2 ^ 32)
      ((virtual_address + off) % 2 ^ 32) 7 true
    >> map_pages count fuel directory physical_address virtual_address (off + 2 ^ 12)

unfoldable pub allocate_virtual_memory :
    (fuel directory physical_address size virtual_address : ℕ) → Cmd Mem (Unit {0})
allocate_virtual_memory fuel directory physical_address size virtual_address =
    map_pages (suc (size / 2 ^ 12)) fuel directory physical_address virtual_address 0

abbrev pub heap_start : ℕ
heap_start = 3489660928

abbrev pub min_heap_size : ℕ
min_heap_size = 327680

-- The `for` loop of `heap_init`, a page at a time.
unfoldable pub create_heap_frames : (pages fuel address : ℕ) → Cmd Mem (Unit {0})
create_heap_frames zero fuel address = pure tt
create_heap_frames (suc pages) fuel address = do
  directory ← gets (λ s. s.kernel_pagedirectory)
  create_pageframe fuel directory address 7
  create_heap_frames pages fuel (address + 2 ^ 12)

unfoldable pub heap_init : ℕ → Cmd Mem (Unit {0})
heap_init fuel =
    create_heap_frames (min_heap_size / 2 ^ 12) fuel heap_start
    >> modify (λ s. record s {
      k_heap_start = heap_start;
      k_heap_top = heap_start;
      k_heap_end = heap_start + min_heap_size;
      k_heap_size = min_heap_size;
      mode = heap;
    })
