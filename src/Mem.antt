-- ===== src/Mem.antt =====
-- The memory manager: paging.c, kmem.c and heap.c.
pub mod Bitmap
pub mod State
pub mod Kmem
pub mod Paging
pub mod Directories
