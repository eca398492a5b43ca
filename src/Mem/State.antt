-- ===== src/Mem/State.antt =====
-- The state of the memory manager: the frame bitmap, the page directories and tables, and the variables of kmem.c
-- and heap.c.
use Prim.Native.Nat.{bit_and}
use cyb_os.Prelude.{ℕ, ◌-◌, ◌^◌, ◌==◌, if◌then◌else◌}
use cyb_os.Prelude.Run.{ok, fault, panic, out_of_fuel, Cmd}
use cyb_os.Mem.Bitmap.{Bitmap}

-- `pagedirectory_t`. `tables` holds addresses, 0 is NULL.
pub record Directory : Type 0 where
  pub phystables : ℕ → ℕ
  pub physical_address : ℕ
  pub tables : ℕ → ℕ

-- Which functions `_func_kmalloc` and `_func_kfree` point to.
pub data Mode : Type 0 where
  preheap : Mode
  heap : Mode

pub record Mem : Type 0 where
  pub bitmap : Bitmap
  -- The directories and the tables at their addresses.
  pub directories : ℕ → Directory
  pub pages : (table page : ℕ) → ℕ
  pub kernel_pagedirectory : ℕ
  pub mode : Mode
  pub memory_total : ℕ
  pub k_preheap_start : ℕ
  pub k_preheap_top : ℕ
  pub unfreeable_kmem : ℕ
  pub k_heap_start : ℕ
  pub k_heap_top : ℕ
  pub k_heap_end : ℕ
  pub k_heap_size : ℕ

-- The value at one address changed.
unfoldable pub put {ℓ} : {A : Type ℓ} → (ℕ → A) → ℕ → A → ℕ → A
put f i v j = if j == i then v else f j

-- `x & 0xFFFFF000` and `x & 0xFFF`
abbrev pub page_of : ℕ → ℕ
page_of x = bit_and x (2 ^ 32 - 2 ^ 12)

abbrev pub offset_of : ℕ → ℕ
offset_of x = bit_and x (2 ^ 12 - 1)

-- A call on the bitmap alone.
unfoldable pub on_bitmap : {A : Type 0} → Cmd Bitmap A → Cmd Mem A
on_bitmap m s = elim (m s.bitmap) [
  | ok a b ↦ ok a (record s { bitmap = b })
  | fault ↦ fault
  | panic ↦ panic
  | out_of_fuel ↦ out_of_fuel
]
