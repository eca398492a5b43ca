-- ===== src/Klib.antt =====
-- The kernel's own library: source/kernel/klib.c.
pub mod BitField
pub mod Text
pub mod Printf
