-- ===== src/Vfs.antt =====
-- The virtual file system: source/kernel/vfs.c and include/vfs.h.
pub mod Types
pub mod Registry
pub mod Lookup
pub mod Mount
pub mod Dispatch
