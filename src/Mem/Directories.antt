-- ===== src/Mem/Directories.antt =====
-- Whole page directories of paging.c: the clone for a new process, and the first one. What the frames hold is not in the model, so
-- `copy_physical_pageframe_data` leaves no trace here.
use Prim.Native.Nat.{bit_and, bit_or}
use cyb_os.Prelude.{
  ℕ, zero, suc, ◌+◌, ◌*◌, ◌/◌, ◌^◌, true, false, List, ◌++◌, replicate, take, drop, ◌==◌,
  if◌then◌else◌,
}
use cyb_os.Prelude.Run.{Cmd, pure, ◌>>=◌, ◌>>◌, gets, modify, return}
use cyb_os.Mem.Bitmap.{bm_set}
use cyb_os.Mem.State.{Mem, page_of, put, on_bitmap}
use cyb_os.Mem.Kmem.{kmalloc, kmalloc_pageboundary_physical}
use cyb_os.Mem.Paging.{pagetable_size, allocate_pageframe, create_pagedirectory, map_virtual_memory}

-- `if (from & flag) entry |= flag`
unfoldable pub copy_flag : (flag from entry : ℕ) → ℕ
copy_flag flag from entry = if bit_and from flag == 0 then entry else bit_or entry flag

-- Present, writable, user, accessed and dirty.
unfoldable pub copy_flags : (from entry : ℕ) → ℕ
unfolding copy_flag
copy_flags from entry =
    copy_flag 64 from
      (copy_flag 32 from (copy_flag 4 from (copy_flag 2 from (copy_flag 1 from entry))))

-- The pages of a table from page `j` on, each with a frame of its own.
unfoldable pub clone_pages : (rounds j src_table dst_table : ℕ) → Cmd Mem (Unit {0})
unfolding copy_flags
clone_pages zero j src_table dst_table = return
clone_pages (suc rounds) j src_table dst_table = do
  from ← gets (λ s. s.pages src_table j)
  if from == 0 then return else (do
    allocate_pageframe dst_table j false false
    entry ← gets (λ s. s.pages dst_table j)
    modify (λ s. record s {
      pages = put s.pages dst_table (put (s.pages dst_table) j (copy_flags from entry));
    }))
  clone_pages rounds (j + 1) src_table dst_table

-- A new table in slot `i` of a directory.
unfoldable pub copy_table : (fuel src_table dst i : ℕ) → Cmd Mem (Unit {0})
unfolding clone_pages
copy_table fuel src_table dst i = do
  (table, phys_addr) ← kmalloc_pageboundary_physical fuel pagetable_size
  modify (λ s. record s {
    directories = put s.directories dst (record (s.directories dst) {
      tables = put (s.directories dst).tables i table;
      phystables = put (s.directories dst).phystables i (bit_or phys_addr 7);
    });
    pages = put s.pages table (λ _. 0);
  })
  clone_pages 1024 0 src_table table

-- The table of the source, shared.
unfoldable pub link_table : (src dst i : ℕ) → Cmd Mem (Unit {0})
link_table src dst i = modify (λ s. record s {
  directories = put s.directories dst (record (s.directories dst) {
    tables = put (s.directories dst).tables i ((s.directories src).tables i);
    phystables = put (s.directories dst).phystables i ((s.directories src).phystables i);
  });
})

-- The slots from `i` on: the tables of the kernel's directory are linked, the others copied.
unfoldable pub clone_tables : (rounds i fuel src dst : ℕ) → Cmd Mem (Unit {0})
unfolding copy_table link_table
clone_tables zero i fuel src dst = return
clone_tables (suc rounds) i fuel src dst = do
  s ← gets (λ s. s)
  let table = (s.directories src).tables i
  let kernels = (s.directories s.kernel_pagedirectory).phystables i
  if table == 0
      then return
      else if page_of ((s.directories src).phystables i) == page_of kernels
      then link_table src dst i
      else copy_table fuel table dst i
  clone_tables rounds (i + 1) fuel src dst

unfoldable pub clone_pagedirectory : (fuel src : ℕ) → Cmd Mem ℕ
unfolding clone_tables
clone_pagedirectory fuel src = do
  dst ← create_pagedirectory fuel
  clone_tables 1024 0 fuel src dst
  pure dst

-- The pages of the kernel, where they are and at `0xC0000000`, from page `i` on.
unfoldable pub map_kernel : (rounds i fuel directory : ℕ) → Cmd Mem (Unit {0})
map_kernel zero i fuel directory = return
map_kernel (suc rounds) i fuel directory = do
  map_virtual_memory fuel directory (i * 2 ^ 12) (i * 2 ^ 12) 7 true
  map_virtual_memory fuel directory (i * 2 ^ 12) (3221225472 + i * 2 ^ 12) 7 true
  map_kernel rounds (i + 1) fuel directory

-- The frames from `i` on.
unfoldable pub reserve_frames : (rounds i : ℕ) → Cmd Mem (Unit {0})
reserve_frames zero i = return
reserve_frames (suc rounds) i = do on_bitmap (bm_set i); reserve_frames rounds (i + 1)

-- The lower 16 MB at `0xF0000000`, without the bitmap, from page `i` on.
unfoldable pub map_low_memory : (rounds i fuel directory : ℕ) → Cmd Mem (Unit {0})
map_low_memory zero i fuel directory = return
map_low_memory (suc rounds) i fuel directory = do
  map_virtual_memory fuel directory (i * 2 ^ 12) (4026531840 + i * 2 ^ 12) 7 false
  map_low_memory rounds (i + 1) fuel directory

-- `memory` is what the words of the map held: `size` bytes are cleared, and the map has `size` words. The load of the
-- register CR3 at the end is left out.
unfoldable pub paging_init : (fuel : ℕ) → (memory : List ℕ) → Cmd Mem (Unit {0})
unfolding map_kernel reserve_frames map_low_memory
paging_init fuel memory = do
  total ← gets (λ s. s.memory_total)
  let size = total / 2 ^ 12 / 32
  kmalloc fuel 16 >>= λ _. return
  kmalloc fuel size >>= λ _. return
  modify (λ s. record s {
    bitmap = record {
      size = size;
      bitsize = 32;
      map = replicate (size / 4) 0 ++ drop (size / 4) (take size memory);
      firstempty = 0;
    };
  })
  directory ← create_pagedirectory fuel
  modify (λ s. record s { kernel_pagedirectory = directory })
  map_kernel 256 0 fuel directory
  on_bitmap (bm_set 0)
  reserve_frames 96 160
  map_low_memory 4096 0 fuel directory
