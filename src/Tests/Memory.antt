-- ===== src/Tests/Memory.antt =====
-- The theorems on frames, pages, blocks and descriptors at small inputs.
use cyb_os.Prelude.{
  ℕ, ◌+◌, ◌-◌, ◌*◌, ◌%◌, ◌^◌, ◌≤◌, ◌≡◌, refl, true, false, ◌⊎◌, [], ◌∷◌, arith, some, none,
}
use cyb_os.Prelude.Run.{ok}
use cyb_os.Mem.Bitmap.{Bitmap, full, bm_findfirst}
use cyb_os.Mem.Bitmap.Search.{IsBitmap, IsFullBelow, IsFirstFree}
use cyb_os.Mem.Bitmap.First.{bm_findfirst_lem}
use cyb_os.Mem.State.{heap, Mem}
use cyb_os.Mem.Kmem.{heap_kmalloc, get_physical_address}
use cyb_os.Mem.Kmem.Blocks.{heap_kmalloc_lem}
use cyb_os.Mem.Paging.{map_virtual_memory}
use cyb_os.Mem.Bitmap.Mark.{used}
use cyb_os.Mem.Paging.Mapped.{get_physical_address-map_virtual_memory}

-- 64 frames, of which the first 33 are taken.
abbrev pub frames : Bitmap
frames = record { size = 2; bitsize = 32; map = full ∷ 1 ∷ []; firstempty = 0 }

frames-IsBitmap : IsBitmap frames
unfolding IsBitmap IsFullBelow
frames-IsBitmap = (
  refl,
  refl,
  omega arith,
  (omega arith, (omega arith, tt)),
  omega arith,
  λ k l. absurd (omega arith),
)

bm_findfirst_lem_example :
    (bm_findfirst frames ≡ ok none frames) × IsFullBelow (full ∷ 1 ∷ []) 2
    ⊎ ((i : ℕ) × (j : ℕ) × ((bm_findfirst frames
            ≡ ok (some (i * 32 + j)) (record frames { firstempty = (i + (2 ^ 32 - 1)) % 2 ^ 32 }))
          × IsFirstFree (full ∷ 1 ∷ []) i j
          × IsBitmap (record frames { firstempty = (i + (2 ^ 32 - 1)) % 2 ^ 32 })))
bm_findfirst_lem_example = bm_findfirst_lem frames frames-IsBitmap

abbrev pub memory : Mem
memory = record {
  bitmap = frames;
  directories = λ _. record { phystables = λ _. 0; physical_address = 4096; tables = λ _. 8192 };
  pages = λ _ _. 0;
  kernel_pagedirectory = 4096;
  mode = heap;
  memory_total = 2 ^ 24;
  k_preheap_start = 3221229568;
  k_preheap_top = 3221229569;
  unfreeable_kmem = 0;
  k_heap_start = 3489660928;
  k_heap_top = 3489660928;
  k_heap_end = 3489988608;
  k_heap_size = 327680;
}

heap_kmalloc_lem_example :
    (phys : ℕ) × (s' : Mem) × (heap_kmalloc 3 400000 false true memory ≡ ok (3489660928, phys) s')
    × (get_physical_address 4096 3489660928 s' ≡ ok phys s')
    × (s'.k_heap_top ≡ 3490060928)
    × (s'.k_heap_top ≤ s'.k_heap_end)
    × (3489988608 ≤ s'.k_heap_end)
heap_kmalloc_lem_example =
    heap_kmalloc_lem 2 400000 true memory (omega arith) (omega arith) (omega arith) (λ e. refl)

get_physical_address-map_virtual_memory_example :
    (s' : Mem) × (map_virtual_memory 1 4096 139264 4026531840 7 true memory ≡ ok tt s')
    × (get_physical_address 4096 4026531840 s' ≡ ok 139264 s')
    × (used s'.bitmap.map 34 ≡ 1)
get_physical_address-map_virtual_memory_example =
    get_physical_address-map_virtual_memory 1 4096 139264 4026531840 7 true memory (omega arith)
      (omega arith) refl refl (λ e. (refl, omega arith))
